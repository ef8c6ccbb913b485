-- ===== src/VmConfig/Features.antt =====
-- VmConfig::enableCpuFeature, on the -cpu line.
use qemu_gui_manager.Prelude.{
  ℕ, ◌≡◌, refl, sym, ap, ◌∙◌, ◌≢◌, inl, inr, true, none, some, [], ◌∷◌, arith, if◌then◌else◌,
  Bool-cases, Option-cases,
}
use qemu_gui_manager.ArgsFile.Index.{line_index-bound, line_index-set_text_at, text_at-set_text_at}
use qemu_gui_manager.Text.{Text, codes, text_eq}
use qemu_gui_manager.Text.Laws.{text_eq_iff}
use qemu_gui_manager.OptionValue.{OptionValue, parse, set, to_string}
use qemu_gui_manager.OptionValue.Clean.{IsClean}
use qemu_gui_manager.OptionValue.Edits.{IsKeyName, is_empty-eq-false, reparse}
use qemu_gui_manager.ArgsFile.{
  ArgsFile, line_index, text_at, value_at, set_text_at, set_value_at, option,
}
use qemu_gui_manager.VmConfig.Cpus.{names_feature, enable_cpu_feature}

names_feature-set : (f x : Text) (v : OptionValue) → f ≢ [] → names_feature f (set f x v) ≡ true
unfolding names_feature set
names_feature-set f x [] n = rw (is_empty-eq-false f n, (text_eq_iff f f).1 refl) refl
names_feature-set f x (i ∷ is) n = elim (Bool-cases (text_eq i.key f)) [
  | inl e ↦
      rw
        (
          e,
          if◌then◌else◌,
          is_empty-eq-false i.key (λ q. n (sym ((text_eq_iff i.key f).0 e) ∙ q)),
          e,
        )
        refl
  | inr e ↦ rw (e, if◌then◌else◌) (ground (arith, names_feature-set f x is n))
]

enable-found :
    (f : Text) (args : ArgsFile) (i : ℕ)
    → line_index (codes "cpu") option args ≡ some i
    → enable_cpu_feature f args ≡ (
        if names_feature f (parse (text_at args i))
        then args
        else set_text_at i (to_string (set f (codes "on") (parse (text_at args i)))) args)
unfolding enable_cpu_feature value_at set_value_at
enable-found f args i e = rw (e, enable_cpu_feature) refl

enable-missing :
    (f : Text) (args : ArgsFile)
    → line_index (codes "cpu") option args ≡ none
    → enable_cpu_feature f args ≡ args
unfolding enable_cpu_feature
enable-missing f args e = rw (e, enable_cpu_feature) refl

-- To turn a feature on twice is to turn it on once, for a key name and a file whose first -cpu line,
-- if there is one, is clean: the second time finds what the first has written.
enable_cpu_feature_twice :
    (f : Text) (args : ArgsFile)
    → IsKeyName f
    → ((i : ℕ) → line_index (codes "cpu") option args ≡ some i → IsClean (text_at args i))
    → enable_cpu_feature f (enable_cpu_feature f args) ≡ enable_cpu_feature f args
enable_cpu_feature_twice f args key clean =
    elim (Option-cases (line_index (codes "cpu") option args)) [
      | inl e ↦ rw (enable-missing f args e) (enable-missing f args e)
      | inr (i, e) ↦ elim (Bool-cases (names_feature f (parse (text_at args i)))) [
        | inl t ↦ let same = enable-found f args i e ∙ rw (t, if◌then◌else◌) refl in rw same same
        | inr t ↦
            let v = set f (codes "on") (parse (text_at args i)) in
            let written = set_text_at i (to_string v) args in
            let first : enable_cpu_feature f args ≡ written =
              enable-found f args i e ∙ rw (t, if◌then◌else◌) refl in
            let found = line_index-set_text_at (codes "cpu") option (to_string v) i args ∙ e in
            let read =
              text_at-set_text_at (to_string v) i args
                (line_index-bound (codes "cpu") option args i e) in
            let back = ap parse read ∙ reparse (text_at args i) f (codes "on") (clean i e) key in
            let named : names_feature f (parse (text_at written i)) ≡ true =
              rw back (names_feature-set f (codes "on") (parse (text_at args i)) key.0) in
            rw first (enable-found f written i found ∙ rw (named, if◌then◌else◌) refl)
      ]
    ]
