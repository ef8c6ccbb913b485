-- ===== src/ArgsFile/Parsed.antt =====
-- The lines that ArgsFile::parse gives.
use qemu_gui_manager.Prelude.{
  ℕ, zero, suc, ◌≡◌, refl, sym, ap, subst, ◌≢◌, inl, inr, Bool, true, false, none, some, [], ◌∷◌,
  arith, ◌==◌, if◌then◌else◌, ==_iff, Bool-cases, Option-cases, take, drop,
}
use qemu_gui_manager.Text.{
  Text, codes, one_of, index_of, starts_with, starts_with_char, is_space, trimmed, index_of_space,
  has_space, ends_blank,
}
use qemu_gui_manager.Text.Trim.{
  IsTrimmed, trimmed-IsTrimmed, ends_blank-append, has_space-eq-false, has_space-take,
  has_space-drop, cut_at_space, trimmed-eq-nil,
}
use qemu_gui_manager.ArgsFile.{
  comment_line, named_line, directives, hash, dash, space, strip_dashes, parse_hash, parse_option,
  parse_line, hash_line, option,
}
use qemu_gui_manager.ArgsFile.Lines.{hash_word, IsWritten, parse_hash-comment}

-- `---option` would lose a dash each time it is written.
abbrev pub three_dashes : Text → Bool
three_dashes t = starts_with t (codes "---")

value-ne-nil :
    (t : Text) (i : ℕ)
    → index_of_space t ≡ some i
    → ends_blank t ≡ false
    → trimmed (drop (suc i) t) ≢ []
value-ne-nil t i e h empty =
    let (x, cut, s) = cut_at_space t i e in
    cc (
      sym h,
      ap ends_blank cut,
      ends_blank-append (take i t) x (drop (suc i) t),
      trimmed-eq-nil x (drop (suc i) t) empty s,
    )

strip_dashes-ends :
    (body : Text)
    → ends_blank (dash ∷ body) ≡ false
    → ends_blank (dash ∷ strip_dashes (dash ∷ body)) ≡ false
unfolding strip_dashes starts_with
strip_dashes-ends [] h = h
strip_dashes-ends (c ∷ body) h = elim (Bool-cases (c == dash)) [
  | inl e ↦
      let dashes : ends_blank (dash ∷ dash ∷ body) ≡ false =
        subst (λ (x : ℕ). ends_blank (dash ∷ x ∷ body) ≡ false) ((==_iff c dash).0 e) h in
      ground arith
  | inr e ↦ ground arith
]

has_space-strip_dashes : (t : Text) → has_space t ≡ false → has_space (strip_dashes t) ≡ false
unfolding strip_dashes
has_space-strip_dashes t h = ground (arith, has_space-drop 2 t h, has_space-drop 1 t h)

strip_dashes-written :
    (t : Text)
    → starts_with t (codes "---") ≡ false
    → starts_with_char t dash ≡ true
    → starts_with_char (strip_dashes t) dash ≡ false
unfolding starts_with strip_dashes
strip_dashes-written [] h d = refl
strip_dashes-written (a ∷ []) h d = ground arith
strip_dashes-written (a ∷ b ∷ []) h d = ground arith
strip_dashes-written (a ∷ b ∷ c ∷ t) h d = ground arith

starts_with-take : (t p : Text) (n : ℕ) → starts_with t p ≡ false → starts_with (take n t) p ≡ false
unfolding starts_with
starts_with-take t [] n h = h
starts_with-take [] (x ∷ p) zero h = refl
starts_with-take [] (x ∷ p) (suc n) h = refl
starts_with-take (y ∷ t) (x ∷ p) zero h = refl
starts_with-take (y ∷ t) (x ∷ p) (suc n) h = ground (arith, starts_with-take t p n)

pub parse_option_plain :
    (t : Text) → index_of_space t ≡ none → parse_option t ≡ named_line option (strip_dashes t) []
unfolding parse_option
parse_option_plain t e = rw (e, parse_option)

pub parse_option_spaced :
    (t : Text) (i : ℕ)
    → index_of_space t ≡ some i
    → parse_option t ≡ named_line option (strip_dashes (take i t)) (trimmed (drop (suc i) t))
unfolding parse_option
parse_option_spaced t i e = rw (e, parse_option)

parse_option-IsWritten :
    (body : Text)
    → IsTrimmed (dash ∷ body)
    → three_dashes (dash ∷ body) ≡ false
    → IsWritten (parse_option (dash ∷ body))
parse_option-IsWritten body trim h = elim (Option-cases (index_of_space (dash ∷ body))) [
  | inl e ↦ rw (parse_option_plain (dash ∷ body) e) (
    refl,
    has_space-strip_dashes (dash ∷ body) (has_space-eq-false (dash ∷ body) e),
    strip_dashes-written (dash ∷ body) h refl,
    (refl, refl),
    (λ _. strip_dashes-ends body trim.1),
  )
  | inr (i, e) ↦ rw (parse_option_spaced (dash ∷ body) i e) (
    refl,
    has_space-strip_dashes (take i (dash ∷ body)) (has_space-take i (dash ∷ body) e),
    taken i e,
    trimmed-IsTrimmed (drop (suc i) (dash ∷ body)),
    (λ v. absurd (value-ne-nil (dash ∷ body) i e trim.1 v)),
  )
]
  where
    taken :
        (i : ℕ)
        → index_of_space (dash ∷ body) ≡ some i
        → starts_with_char (strip_dashes (take i (dash ∷ body))) dash ≡ false
    taken zero e = unfold strip_dashes starts_with in refl
    taken (suc i) e =
        strip_dashes-written (take (suc i) (dash ∷ body))
          (starts_with-take (dash ∷ body) (codes "---") (suc i) h) refl

parse_hash-IsWritten :
    (body : Text) → IsTrimmed (hash ∷ body) → IsWritten (parse_hash (hash ∷ body) body)
parse_hash-IsWritten body trim = elim (Bool-cases (one_of (hash_word body) directives)) [
  | inl d ↦ elim (Option-cases (index_of space body)) [
    | inl e ↦
        let d' : one_of body directives ≡ true = rw (e, hash_word) at d in
        unfold parse_hash hash_line in
        rw (e, parse_hash) (rw (d', if◌then◌else◌) (refl, d', (refl, refl)))
    | inr (i, e) ↦
        let d' : one_of (take i body) directives ≡ true = rw (e, hash_word) at d in
        unfold parse_hash hash_line in
        rw (e, parse_hash)
          (rw (d', if◌then◌else◌) (refl, d', trimmed-IsTrimmed (drop (suc i) body)))
  ]
  | inr c ↦ rw (parse_hash-comment body c) (refl, refl, trim, body, refl, c)
]

not_option-IsWritten :
    (t : Text) → IsTrimmed t → t ≢ [] → IsWritten (comment_line (hash ∷ space ∷ t))
unfolding is_space
not_option-IsWritten [] trim n = absurd (n refl)
not_option-IsWritten (c ∷ t) trim n =
    (refl, refl, (refl, trim.1), space ∷ c ∷ t, refl, (unfold index_of one_of in refl))

pub parse_line-IsWritten :
    (t : Text) → IsTrimmed t → three_dashes t ≡ false → IsWritten (parse_line t)
parse_line-IsWritten [] trim h = unfold parse_line in (refl, refl, refl)
parse_line-IsWritten (c ∷ body) trim h = elim (Bool-cases (c == hash)) [
  | inl e ↦
      let at_hash = (==_iff c hash).0 e in
      rw at_hash (
        unfold parse_line in
        parse_hash-IsWritten body (subst (λ (x : ℕ). IsTrimmed (x ∷ body)) at_hash trim))
  | inr e ↦ elim (Bool-cases (c == dash)) [
    | inl d ↦
        let at_dash = (==_iff c dash).0 d in
        rw at_dash (
          unfold parse_line in
          parse_option-IsWritten body (subst (λ (x : ℕ). IsTrimmed (x ∷ body)) at_dash trim)
            (subst (λ (x : ℕ). three_dashes (x ∷ body) ≡ false) at_dash h))
    | inr d ↦
        unfold parse_line in
        rw (e, d, parse_line, if◌then◌else◌) (not_option-IsWritten (c ∷ body) trim (λ n. cc))
  ]
]
