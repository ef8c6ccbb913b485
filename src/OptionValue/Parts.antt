-- ===== src/OptionValue/Parts.antt =====
-- splitItems and joining with commas.
use qemu_gui_manager.Prelude.{
  ℕ, ◌≡◌, refl, ap, ◌∙◌, ◌≢◌, inl, inr, false, List, [], ◌∷◌, ◌++◌, map, append-nil, append_assoc,
  arith, ◌==◌, ==_iff, Bool-cases,
}
use qemu_gui_manager.Text.{Text, has_char, starts_with_char, join}
use qemu_gui_manager.OptionValue.{comma, split_from, split_items, escape}

pub escape-append : (a b : Text) → escape (a ++ b) ≡ escape a ++ escape b
unfolding escape
escape-append [] b = refl
escape-append (x ∷ a) b = ground (arith, escape-append a b)

pub split_from_char :
    (c : ℕ) (cur t : Text)
    → (c == comma) ≡ false
    → split_from cur (c ∷ t) ≡ split_from (cur ++ (c ∷ [])) t
unfolding split_from
split_from_char c cur [] h = rw h
split_from_char c cur (d ∷ t) h = rw (h, split_from)

pub split_from_pair :
    (cur t : Text) → split_from cur (comma ∷ comma ∷ t) ≡ split_from (cur ++ (comma ∷ [])) t
unfolding split_from
split_from_pair cur t = refl

pub split_from-comma :
    (cur t : Text)
    → starts_with_char t comma ≡ false
    → split_from cur (comma ∷ t) ≡ cur ∷ split_from [] t
unfolding split_from
split_from-comma cur [] h = refl
split_from-comma cur (d ∷ t) h = rw (h, split_from)

-- An escaped text is read as one piece, commas included.
split_from-escape :
    (s cur rest : Text) → split_from cur (escape s ++ rest) ≡ split_from (cur ++ s) rest
unfolding escape
split_from-escape [] cur rest = rw append-nil
split_from-escape (c ∷ s) cur rest = elim (Bool-cases (c == comma)) [
  | inl e ↦
      let same : c ≡ comma = (==_iff c comma).0 e in
      rw e (
        split_from_pair cur (escape s ++ rest)
        ∙ split_from-escape s (cur ++ (comma ∷ [])) rest
        ∙ rw (append_assoc, same))
  | inr e ↦ rw e (
      split_from_char c cur (escape s ++ rest) e
      ∙ split_from-escape s (cur ++ (c ∷ [])) rest
      ∙ rw append_assoc)
]

-- Parts that a join keeps apart: none but the first starts with a comma, and only the last is empty.
abbrev pub IsTail : List Text → Type 0
IsTail [] = Unit
IsTail (p ∷ ps) = (starts_with_char p comma ≡ false) × (p ≡ [] → ps ≡ []) × IsTail ps

join_starts :
    (p : Text) (ps : List Text)
    → starts_with_char p comma ≡ false
    → (p ≡ [] → ps ≡ [])
    → starts_with_char (join comma (map escape (p ∷ ps))) comma ≡ false
unfolding join escape
join_starts [] [] s e = refl
join_starts [] (q ∷ qs) s e = absurd (ground (arith, e refl))
join_starts (c ∷ p) [] s e = ground arith
join_starts (c ∷ p) (q ∷ qs) s e = ground arith

split_from-join :
    (cur p : Text) (ps : List Text)
    → IsTail ps
    → split_from cur (join comma (map escape (p ∷ ps))) ≡ (cur ++ p) ∷ ps
unfolding join
split_from-join cur p [] h =
    rw (← append-nil (escape p)) (split_from-escape p cur [] ∙ (unfold split_from in refl))
split_from-join cur p (q ∷ qs) (s, e, h) =
    split_from-escape p cur (comma ∷ join comma (map escape (q ∷ qs)))
    ∙ split_from-comma (cur ++ p) (join comma (map escape (q ∷ qs))) (join_starts q qs s e)
    ∙ ap (◌∷◌ (cur ++ p)) (split_from-join [] q qs h)

-- The parts of a join of escaped parts are those parts.
pub split_items-join :
    (p : Text) (ps : List Text)
    → IsTail ps
    → split_items (join comma (map escape (p ∷ ps))) ≡ p ∷ ps
split_items-join p ps h = split_from-join [] p ps h

pub split_from-ne-nil : (cur t : Text) → split_from cur t ≢ []
unfolding split_from
split_from-ne-nil cur [] = λ e. cc
split_from-ne-nil cur (c ∷ []) = ground arith
split_from-ne-nil cur (c ∷ d ∷ t) =
    ground (
      arith,
      split_from-ne-nil (cur ++ (c ∷ [])) (d ∷ t),
      split_from-ne-nil (cur ++ (comma ∷ [])) t,
    )

join-cons :
    (t : Text) (us : List Text)
    → us ≢ []
    → join comma (t ∷ map escape us) ≡ t ++ (comma ∷ join comma (map escape us))
unfolding join
join-cons t [] h = absurd (h refl)
join-cons t (u ∷ us) h = refl

escape-snoc :
    (cur : Text) (c : ℕ) → (c == comma) ≡ false → escape (cur ++ (c ∷ [])) ≡ escape cur ++ (c ∷ [])
escape-snoc cur c h = escape-append cur (c ∷ []) ∙ (unfold escape in rw h)

escape-comma : (cur : Text) → escape (cur ++ (comma ∷ [])) ≡ escape cur ++ (comma ∷ comma ∷ [])
escape-comma cur = escape-append cur (comma ∷ []) ∙ (unfold escape in refl)

-- `Joined cur t` is the statement of the next lemma.
abbrev Joined : Text → Text → Type 0
Joined cur t = join comma (map escape (split_from cur t)) ≡ escape cur ++ t

join-split_from-char :
    (c : ℕ) (cur t : Text) → (c == comma) ≡ false → Joined (cur ++ (c ∷ [])) t → Joined cur (c ∷ t)
join-split_from-char c cur t h ih =
    rw (split_from_char c cur t h) (ih ∙ rw (escape-snoc cur c h, append_assoc))

join-split_from : (cur t : Text) → Joined cur t
join-split_from cur [] = unfold split_from join in rw append-nil
join-split_from cur (c ∷ []) = elim (Bool-cases (c == comma)) [
  | inl e ↦ unfold split_from join escape in rw e (rw ((==_iff c comma).0 e))
  | inr e ↦ join-split_from-char c cur [] e (join-split_from (cur ++ (c ∷ [])) [])
]
join-split_from cur (c ∷ d ∷ t) = elim (Bool-cases (c == comma)) [
  | inr e ↦ join-split_from-char c cur (d ∷ t) e (join-split_from (cur ++ (c ∷ [])) (d ∷ t))
  | inl e ↦ rw ((==_iff c comma).0 e) (elim (Bool-cases (d == comma)) [
    | inl f ↦ rw ((==_iff d comma).0 f) (
        rw (split_from_pair cur t)
          (join-split_from (cur ++ (comma ∷ [])) t ∙ rw (escape-comma cur, append_assoc)))
    | inr f ↦ rw (split_from-comma cur (d ∷ t) f) (
        join-cons (escape cur) (split_from [] (d ∷ t)) (split_from-ne-nil [] (d ∷ t))
        ∙ ap (λ (u : Text). escape cur ++ (comma ∷ u))
            (join-split_from [] (d ∷ t) ∙ (unfold escape in refl)))
  ])
]

-- Escaping the parts of a text and joining them gives the text back, whatever its commas.
pub join-split_items : (t : Text) → join comma (map escape (split_items t)) ≡ t
join-split_items t = join-split_from [] t ∙ (unfold escape in refl)

pub escape-eq_self : (t : Text) → has_char comma t ≡ false → escape t ≡ t
unfolding escape has_char
escape-eq_self [] h = refl
escape-eq_self (c ∷ t) h = ground (arith, escape-eq_self t)

-- A text with no comma is one part.
pub split_items-no_comma : (t : Text) → has_char comma t ≡ false → split_items t ≡ t ∷ []
unfolding join
split_items-no_comma t h = rw (escape-eq_self t h) at (split_items-join t [] tt)

pub split_items-escape : (t : Text) → split_items (escape t) ≡ t ∷ []
unfolding join
split_items-escape t = split_items-join t [] tt
