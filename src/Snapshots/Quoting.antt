-- ===== src/Snapshots/Quoting.antt =====
-- src/core/snapshots.cpp: the quoted arguments of commands of the monitor.
use qemu_gui_manager.Prelude.{
  ℕ, ◌≡◌, refl, sym, ap, ◌∙◌, subst, inl, inr, false, Option, none, some, [], ◌∷◌, ◌++◌,
  append_assoc, ◌==◌, if◌then◌else◌, ==_iff, Bool-cases, drop,
}
use qemu_gui_manager.Text.{Text}
use qemu_gui_manager.Snapshots.Texts.{
  backslash, double_quote, double_backslashes, escape_double_quotes, hmp_quote,
}

-- What the monitor of QEMU reads behind an opening quote: the argument, and what is behind the
-- closing quote.
abbrev pub Reader : Type 0
Reader = Text → Option (Text × Text)

abbrev pub with_char : ℕ → Option (Text × Text) → Option (Text × Text)
with_char c none = none
with_char c (some (t, rest)) = some (c ∷ t, rest)

-- How the monitor reads: a quote ends the argument, a backslash takes away the meaning of a
-- backslash or a quote behind it, and any other character stands for itself.
pub record IsReader (read : Reader) : Type 0 where
  pub ends : (rest : Text) → read (double_quote ∷ rest) ≡ some ([], rest)
  pub backslashes :
      (rest : Text) → read (backslash ∷ backslash ∷ rest) ≡ with_char backslash (read rest)
  pub quotes :
      (rest : Text) → read (backslash ∷ double_quote ∷ rest) ≡ with_char double_quote (read rest)
  pub plain :
      (c : ℕ) (rest : Text)
      → (c == backslash) ≡ false
      → (c == double_quote) ≡ false
      → read (c ∷ rest) ≡ with_char c (read rest)

abbrev escaped : Text → Text
escaped t = escape_double_quotes (double_backslashes t)

module _ (read : Reader) (h : IsReader read) where
  escaped_lem : (t rest : Text) → read (escaped t ++ (double_quote ∷ rest)) ≡ some (t, rest)
  unfolding double_backslashes escape_double_quotes
  escaped_lem [] rest = h.ends rest
  escaped_lem (c ∷ cs) rest = elim (Bool-cases (c == backslash)) [
    | inl e ↦
        subst (λ (x : ℕ). read (escaped (x ∷ cs) ++ (double_quote ∷ rest)) ≡ some (x ∷ cs, rest))
          (sym ((==_iff c backslash).0 e))
          (h.backslashes (escaped cs ++ (double_quote ∷ rest))
            ∙ ap (with_char backslash) (escaped_lem cs rest))
    | inr e ↦ elim (Bool-cases (c == double_quote)) [
      | inl q ↦
          subst (λ (x : ℕ). read (escaped (x ∷ cs) ++ (double_quote ∷ rest)) ≡ some (x ∷ cs, rest))
            (sym ((==_iff c double_quote).0 q))
            (h.quotes (escaped cs ++ (double_quote ∷ rest))
              ∙ ap (with_char double_quote) (escaped_lem cs rest))
      | inr q ↦
          rw (e, if◌then◌else◌, q)
            (h.plain c (escaped cs ++ (double_quote ∷ rest)) e q
              ∙ ap (with_char c) (escaped_lem cs rest))
    ]
  ]

  -- Behind the opening quote, the monitor reads the text that hmpQuote quotes, to the quote that
  -- hmpQuote puts at its end, whatever is in the text and whatever comes behind.
  pub read-hmp_quote :
      (t rest : Text)
      → (hmp_quote t ++ rest ≡ double_quote ∷ (drop 1 (hmp_quote t) ++ rest))
        × (read (drop 1 (hmp_quote t) ++ rest) ≡ some (t, rest))
  unfolding hmp_quote
  read-hmp_quote t rest =
      (refl, ap read (append_assoc (escaped t) (double_quote ∷ []) rest) ∙ escaped_lem t rest)
