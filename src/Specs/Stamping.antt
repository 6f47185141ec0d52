-- ===== src/Specs/Stamping.antt =====
-- Stamp against splitFrontmatter: what a reader of the stamped file sees.
use codefort.Base.{
  arith, subst, ◌⊎◌, ℕ, Option-cases, Bool-cases, inl, inr, ap, sym, ◌∙◌, eq_iff, String, true, ◌≡◌,
  refl, ◌∙◌, List, [], ◌∷◌, ◌++◌, Option, none, some, select, select_first, Bool-cases, inl, inr,
  ◌==◌, string_eq, eq_iff, length, ◌+◌, nat_eq,
}
use codefort.Specs.{
  Reading, read_spec, bad_frontmatter, join_lines, decode_block, split_frontmatter, Split, fence,
  closes_block, to_fence, yaml_line, sets_key, upsert_yaml, stamped, fresh_block, split_lines,
  split_block, stamp, stamp_block,
}
use codefort.Specs.Lines.{
  closes_verified, closes_alignment, sets_own, verified_sets, alignment_sets,
}
use codefort.Specs.Fences.{Found, IsOpen, to_fence-Found, to_fence-open}
use codefort.Specs.Upserts.{
  drops_alignment, drops_verified, is_other, upsert_yaml-IsOpen, upsert_yaml-first,
  upsert_yaml-first_other, upsert_yaml-others, upsert_yaml-same,
}

module _ (trim_space : String → String) where
  -- A stamped file: the block has the stamp, the body and the other lines of the block are those of
  -- the file before.
  record IsStamped (date alignment : String) (old : Split) (file : List String) : Type 0 where
    block : List String
    closing : String
    is_open : IsOpen block
    closes : closes_block closing ≡ true
    form : file ≡ fence ∷ block ++ closing ∷ old.body
    verified :
        select_first (sets_key trim_space "last_verified") block
        ≡ some (yaml_line "last_verified" date)
    agrees :
        select_first (sets_key trim_space "alignment") block
        ≡ some (yaml_line "alignment" alignment)
    others : select (is_other trim_space) block ≡ select (is_other trim_space) old.block

  module _ (date alignment : String)
      (trims_date : trim_space (yaml_line "last_verified" date) ≡ yaml_line "last_verified" date)
      (trims_alignment : trim_space (yaml_line "alignment" alignment)
        ≡ yaml_line "alignment" alignment) where
    fresh-IsStamped :
        (ls : List String)
        → IsStamped date alignment
            (record { block = []; body = ls; body_start = 1 })
            (fresh_block date alignment ++ ls)
    unfolding closes_block
    fresh-IsStamped ls = record {
      block = yaml_line "last_verified" date ∷ yaml_line "alignment" alignment ∷ [];
      closing = fence;
      is_open = (closes_verified date, (closes_alignment alignment, tt));
      closes = refl;
      form = refl;
      verified = rw (sets_own trim_space "last_verified" date trims_date) refl;
      agrees =
          rw
            (
              verified_sets trim_space date trims_date,
              sets_own trim_space "alignment" alignment trims_alignment,
            )
            refl;
      others =
          rw
            (
              drops_verified trim_space (yaml_line "last_verified" date)
                  (sets_own trim_space "last_verified" date trims_date),
              drops_alignment trim_space (yaml_line "alignment" alignment)
                  (sets_own trim_space "alignment" alignment trims_alignment),
            )
            refl;
    }

    stamped-IsStamped :
        (block body : List String) (n : _) (closing : String)
        → IsOpen block
        → closes_block closing ≡ true
        → IsStamped date alignment
            (record { block = block; body = body; body_start = n })
            (fence ∷ stamped trim_space date alignment block ++ closing ∷ body)
    stamped-IsStamped block body n closing h c =
        let b1 = upsert_yaml trim_space "last_verified" date block in
        record {
          block = stamped trim_space date alignment block;
          closing = closing;
          is_open =
              upsert_yaml-IsOpen trim_space "alignment" alignment b1 (closes_alignment alignment)
                (upsert_yaml-IsOpen trim_space "last_verified" date block (closes_verified date) h);
          closes = c;
          form = refl;
          verified =
              upsert_yaml-first_other trim_space "alignment" alignment "last_verified"
                (yaml_line "last_verified" date) b1
                (alignment_sets trim_space alignment trims_alignment)
                (verified_sets trim_space date trims_date)
                (upsert_yaml-first trim_space "last_verified" date block
                  (sets_own trim_space "last_verified" date trims_date));
          agrees =
              upsert_yaml-first trim_space "alignment" alignment b1
                (sets_own trim_space "alignment" alignment trims_alignment);
          others =
              upsert_yaml-others trim_space (is_other trim_space) "alignment" alignment b1
                (drops_alignment trim_space (yaml_line "alignment" alignment)
                  (sets_own trim_space "alignment" alignment trims_alignment))
                (drops_alignment trim_space)
              ∙ upsert_yaml-others trim_space (is_other trim_space) "last_verified" date block
                  (drops_verified trim_space (yaml_line "last_verified" date)
                    (sets_own trim_space "last_verified" date trims_date))
                  (drops_verified trim_space);
        }

    stamp-Found :
        (ls : List String) (o : Option (List String × List String))
        → Found o
        → IsStamped date alignment
            (split_block (fence ∷ ls) o)
            (stamp_block trim_space date alignment (fence ∷ ls) o)
    unfolding split_block stamp_block
    stamp-Found ls none f = fresh-IsStamped (fence ∷ ls)
    stamp-Found ls (some (block, behind)) f =
        rw f.cut (stamped-IsStamped block f.rest (length block + 3) f.closing f.is_open f.closes)

    stamp-IsStamped :
        (ls : List String)
        → IsStamped date alignment (split_lines ls) (stamp trim_space date alignment ls)
    unfolding stamp split_lines
    stamp-IsStamped [] = fresh-IsStamped []
    stamp-IsStamped (l ∷ ls) = elim (Bool-cases (l == fence)) [
      | inl e ↦ rw (e, (eq_iff l fence).0 e) (stamp-Found ls (to_fence ls) (to_fence-Found ls))
      | inr e ↦ rw e (fresh-IsStamped (l ∷ ls))
    ]

    split-stamped :
        (old : Split) (file : List String) (s : IsStamped date alignment old file)
        → split_lines file
          ≡ record { block = s.block; body = old.body; body_start = length s.block + 3 }
    unfolding split_lines split_block
    split-stamped old file s =
        rw (s.form, to_fence-open s.block old.body s.closing s.is_open s.closes) refl

    stamp_again-stamped :
        (old : Split) (file : List String)
        → IsStamped date alignment old file
        → stamp trim_space date alignment file ≡ file
    unfolding stamp stamp_block
    stamp_again-stamped old file s =
        rw
          (
            s.form,
            to_fence-open s.block old.body s.closing s.is_open s.closes,
            upsert_yaml-same trim_space "last_verified" date s.block s.verified,
            upsert_yaml-same trim_space "alignment" alignment s.block s.agrees,
          )
          refl

    module _ {Fields : Type 0} (decode : String → Option Fields) (zero_fields : Fields) where
      -- How the stamped file reads: the decoder refuses the block, or the body comes back.
      abbrev pub ReadsBack : List String → List String → Reading Fields → Type 0
      ReadsBack block body reading =
          ((decode (join_lines block) ≡ none) × (reading ≡ bad_frontmatter))
          ⊎ ((fields : Fields) × (n : ℕ) × (reading ≡ read_spec fields body n)
              × ((decode (join_lines block) ≡ some fields) ⊎ (trim_space (join_lines block) ≡ "")))

      decode_block-ReadsBack :
          (s : Split) → ReadsBack s.block s.body (decode_block trim_space decode zero_fields s)
      unfolding decode_block
      decode_block-ReadsBack s = elim (Bool-cases (trim_space (join_lines s.block) == "")) [
        | inl e ↦ inr (
          zero_fields,
          s.body_start,
          ground (arith, e),
          inr ((eq_iff (trim_space (join_lines s.block)) "").0 e),
        )
        | inr e ↦ elim (Option-cases (decode (join_lines s.block))) [
          | inl d ↦ inl (d, ground (arith, e, d))
          | inr (fields, d) ↦ inr (fields, s.body_start, ground (arith, e, d), inl d)
        ]
      ]

      body_read :
          (s : Split) (fields : Fields) (body : List String) (n : ℕ)
          → decode_block trim_space decode zero_fields s ≡ read_spec fields body n
          → s.body ≡ body
      body_read s fields body n e = elim (decode_block-ReadsBack s) [
        | inl (d, f) ↦ cc
        | inr (fields', n', f, d) ↦ same_body fields' fields s.body body n' n (sym f ∙ e)
      ]
        where
          body_of : {F : Type 0} → List String → Reading F → List String
          body_of none_read (read_spec fields body n) = body
          body_of none_read bad_frontmatter = none_read

          same_body :
              {F : Type 0} (f f' : F) (b b' : List String) (n n' : ℕ)
              → ◌≡◌ {A = Reading F} (read_spec f b n) (read_spec f' b' n')
              → b ≡ b'
          same_body f f' b b' n n' e = ap (body_of b) e

      -- When a file can be read, with whatever fields, its stamped version either has a block that the
      -- YAML decoder refuses, and reading it is that error, or is read with the same body. In the block
      -- of the stamped file the first line that sets `last_verified` and the first that sets `alignment`
      -- are the stamped ones, and the lines that set neither key are those of the block before, in
      -- their order. TrimSpace must keep the two stamped lines.
      pub stamp_read_back :
          (ls : List String) (fields : Fields) (body : List String) (n : ℕ)
          → split_frontmatter trim_space decode zero_fields ls ≡ read_spec fields body n
          → ReadsBack
              (split_lines (stamp trim_space date alignment ls)).block
              body
              (split_frontmatter trim_space decode zero_fields (stamp trim_space date alignment ls))
            × (select_first
                  (sets_key trim_space "last_verified")
                  (split_lines (stamp trim_space date alignment ls)).block
                ≡ some (yaml_line "last_verified" date))
            × (select_first
                  (sets_key trim_space "alignment")
                  (split_lines (stamp trim_space date alignment ls)).block
                ≡ some (yaml_line "alignment" alignment))
            × (select (is_other trim_space) (split_lines (stamp trim_space date alignment ls)).block
                ≡ select (is_other trim_space) (split_lines ls).block)
      unfolding split_frontmatter
      stamp_read_back ls fields body n e =
          let s = stamp-IsStamped ls in
          let new = split_lines (stamp trim_space date alignment ls) in
          let is = split-stamped (split_lines ls) (stamp trim_space date alignment ls) s in
          let same : new.body ≡ body =
            ap (λ x. x.body) is ∙ body_read (split_lines ls) fields body n e in
          (
            subst (λ b. ReadsBack new.block b (decode_block trim_space decode zero_fields new)) same
                (decode_block-ReadsBack new),
            rw is s.verified,
            rw is s.agrees,
            rw is s.others,
          )

    -- Stamping a file again with the same date and alignment changes nothing, provided that TrimSpace
    -- keeps the two stamped lines.
    pub stamp_twice :
        (ls : List String)
        → stamp trim_space date alignment (stamp trim_space date alignment ls)
          ≡ stamp trim_space date alignment ls
    stamp_twice ls =
        stamp_again-stamped (split_lines ls) (stamp trim_space date alignment ls)
          (stamp-IsStamped ls)
