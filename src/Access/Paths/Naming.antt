-- ===== src/Access/Paths/Naming.antt =====
-- What a path names: the owner and the repository that a client puts into it.
use Prim.Native.Char.{Char, code}
use Prim.Native.String.{◌++◌}
use text.Mathlib.TextPositions.{starts_with-append, slice-append_right, len-append}
use text.Mathlib.TextLemmas.{
  nil-append, cons-append, append-nil, append_cancel_right, append-eq-nil_iff, cons-ne-nil,
}
use codefort.Base.{
  String, false, none, some, ◌≡◌, ◌≢◌, refl, ap, ◌∙◌, sym, nat_eq, string_eq, ◌⊎◌, inl, inr, arith,
  eq_iff,
}
use codefort.Access.Paths.{trim_prefix, trim_suffix, has_suffix, cut_slash, repo_in, repo_from_path}

abbrev pub NoSlash : String → Type 0
NoSlash String.[] = Unit
NoSlash (String.◌∷◌ c s) = (code c ≢ b'/') × NoSlash s

trim_prefix-append : (p s : String) → trim_prefix (p ++ s) p ≡ s
unfolding trim_prefix
trim_prefix-append p s = rw (starts_with-append p s, len-append p s) (slice-append_right p s)

cut_slash-append : (s t : String) → NoSlash s → cut_slash (s ++ ("/" ++ t)) ≡ (s, some t)
unfolding cut_slash
cut_slash-append String.[] t h = rw (nil-append, cons-append, nil-append) refl
cut_slash-append (String.◌∷◌ c s) t h = rw cons-append (ground (arith, cut_slash-append s t h.1))

cut_slash_whole : (s : String) → NoSlash s → cut_slash s ≡ (s, none)
unfolding cut_slash
cut_slash_whole String.[] h = refl
cut_slash_whole (String.◌∷◌ c s) h = ground (arith, cut_slash_whole s h.1)

longer : (c : Char) (s : String) → String.◌∷◌ c (s ++ ".git") ≢ ".git"
longer c s e = cons-ne-nil c s (
    append_cancel_right (String.◌∷◌ c s) String.[] ".git"
      (cons-append c s ".git" ∙ e ∙ sym (nil-append ".git")))

trim_suffix_added : (s : String) → trim_suffix (s ++ ".git") ".git" ≡ s
unfolding trim_suffix
trim_suffix_added String.[] = refl
trim_suffix_added (String.◌∷◌ c s) =
    rw cons-append
      (ground (arith, trim_suffix_added s, eq_iff (String.◌∷◌ c (s ++ ".git")) ".git", longer c s))

trim_suffix_absent : (s : String) → has_suffix s ".git" ≡ false → trim_suffix s ".git" ≡ s
unfolding trim_suffix has_suffix
trim_suffix_absent String.[] h = refl
trim_suffix_absent (String.◌∷◌ c s) h = ground (arith, trim_suffix_absent s)

-- The path of a request below a repository, and what may follow the repository's segment.
abbrev pub path_of : String → String → String → String → String
path_of prefix owner segment tail = prefix ++ ("/" ++ (owner ++ ("/" ++ (segment ++ tail))))

abbrev pub StartsSegment : String → Type 0
StartsSegment tail = (tail ≡ "") ⊎ ((t : String) × (tail ≡ "/" ++ t))

cut_slash_segment :
    (s tail : String) → NoSlash s → StartsSegment tail → (cut_slash (s ++ tail)).0 ≡ s
cut_slash_segment s tail h (inl e) = rw (e, append-nil, cut_slash_whole s h)
cut_slash_segment s tail h (inr (t, e)) = rw (e, cut_slash-append s t h)

segment_named :
    (prefix owner segment name tail : String)
    → NoSlash owner
    → NoSlash segment
    → owner ≢ ""
    → segment ≢ ""
    → StartsSegment tail
    → trim_suffix segment ".git" ≡ name
    → repo_from_path (path_of prefix owner segment tail) prefix ≡ some (owner, name)
unfolding repo_from_path repo_in
segment_named prefix owner segment name tail ho hs eo es ht hn =
    ap repo_in (ap cut_slash trimmed ∙ cut_slash-append owner (segment ++ tail) ho)
    ∙ rw (cut_slash_segment segment tail hs ht, hn)
        (ground (arith, eq_iff owner "", eq_iff segment ""))
  where
    rest : String
    rest = owner ++ ("/" ++ (segment ++ tail))

    trimmed : trim_prefix (trim_prefix (path_of prefix owner segment tail) prefix) "/" ≡ rest
    trimmed =
        ap (λ s. trim_prefix s "/") (trim_prefix-append prefix ("/" ++ rest))
        ∙ trim_prefix-append "/" rest

NoSlash-append : (s t : String) → NoSlash s → NoSlash t → NoSlash (s ++ t)
NoSlash-append String.[] t hs ht = rw nil-append ht
NoSlash-append (String.◌∷◌ c s) t hs ht = rw cons-append (hs.0, NoSlash-append s t hs.1 ht)

-- A path made of a prefix, an owner and a repository's name, with or without `.git` behind the name,
-- and a tail that is empty or starts with a slash, names that owner and that repository, when both
-- are not empty, have no slash, and the name does not itself end in `.git`.
pub repo_from_path_round_trip :
    (prefix owner name tail : String)
    → NoSlash owner
    → NoSlash name
    → owner ≢ ""
    → name ≢ ""
    → StartsSegment tail
    → has_suffix name ".git" ≡ false
    → (repo_from_path (path_of prefix owner name tail) prefix ≡ some (owner, name))
      × (repo_from_path (path_of prefix owner (name ++ ".git") tail) prefix ≡ some (owner, name))
repo_from_path_round_trip prefix owner name tail ho hn eo en ht hg = (
  segment_named prefix owner name name tail ho hn eo en ht (trim_suffix_absent name hg),
  segment_named prefix owner (name ++ ".git") name tail ho
      (NoSlash-append name ".git" hn (omega arith)) eo (λ e. en (append_empty name e)) ht
      (trim_suffix_added name),
)
  where
    append_empty : (s : String) → s ++ ".git" ≡ "" → s ≡ ""
    append_empty s e = (append-eq-nil_iff.0 e).0
