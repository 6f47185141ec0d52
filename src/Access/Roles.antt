-- ===== src/Access/Roles.antt =====
-- Granting and revoking a membership: AddRepoMember and RemoveRepoMember against the rights.
use codefort.Base.{ℕ, String, Bool, ◌&&◌, ◌≡◌, ◌==◌, nat_eq, string_eq}
use codefort.Access.{User, Member, member_is}

abbrev HasKey : ℕ → String → User → Type 0
HasKey id name u = (u.id ≡ id) × (u.name ≡ name)

abbrev writer_is : ℕ → ℕ → Member → Bool
writer_is repo user m = member_is repo user m && m.role == "write"
