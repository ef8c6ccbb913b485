-- ===== src/Importer/Exported.antt =====
-- src/core/importer.cpp and src/core/vmrunner.cpp: a command line written for a shell, as
-- splitCommands reads it.
use qemu_gui_manager.VmRunner.Quoting.{
  is_plain_char, is_plain, escape_quotes, quote_arg, shell_quote, IsQuotable, only_plain,
  only_plain-is_plain, plain-ne, and-left, and-right,
}
use qemu_gui_manager.Prelude.{
  ℕ, ◌≡◌, refl, sym, ap, ◌∙◌, inl, inr, Bool, true, false, List, [], ◌∷◌, ◌++◌, append-nil,
  append_assoc, arith, ◌==◌, if◌then◌else◌, ==_iff, Bool-cases, AllOf,
}
use qemu_gui_manager.Text.{Text, join, is_space}
use qemu_gui_manager.Importer.Words.{
  no_words, add_text, in_a_word, end_word, push_command, end_command, Words, Environment,
}
use qemu_gui_manager.Importer.Script.{
  before_char, escape_step, single_step, script_step, scan, split_commands,
}
use qemu_gui_manager.Importer.Progress.{scan_all, scan_rest, scan_all_lem}
use qemu_gui_manager.VmRunner.Shell.{quote}

-- A state with no variable, note or command yet.
abbrev within : List Text → Text → Bool → Words
within ws w b = record no_words { words = ws; word = w; in_word = b }

is_space-plain : (c : ℕ) → is_plain_char c ≡ true → is_space c ≡ false
unfolding is_plain_char is_space
is_space-plain c h = ground arith

script_step-plain :
    (env : Environment) (c : ℕ) (cs : Text) (s : Words)
    → is_plain_char c ≡ true
    → script_step env c cs s ≡ (cs, in_a_word (add_text (c ∷ []) s))
unfolding script_step is_plain_char
script_step-plain env c cs s p =
    rw
      (
        plain-ne c b'\\' p refl,
        plain-ne c quote p refl,
        plain-ne c b'"' p refl,
        plain-ne c b'$' p refl,
        plain-ne c b'#' p refl,
        plain-ne c b'~' p refl,
        plain-ne c b'\n' p refl,
        plain-ne c b';' p refl,
        plain-ne c b'&' p refl,
        plain-ne c b'|' p refl,
        is_space-plain c p,
      )
      refl

module _ (env : Environment) where
  scan-plain :
      (t rest : Text) (ws : List Text) (w : Text)
      → only_plain t ≡ true
      → scan_all env (t ++ rest) (within ws w true) ≡ scan_all env rest (within ws (w ++ t) true)
  scan-plain [] rest ws w h = rw (append-nil w) refl
  scan-plain (c ∷ t) rest ws w h =
      scan_all_lem env c (t ++ rest) (within ws w true)
      ∙ ap (scan_rest env) (
          script_step-plain env c (t ++ rest) (within ws w true)
            (and-left (is_plain_char c) (only_plain t) h))
      ∙ scan-plain t rest ws (w ++ (c ∷ [])) (and-right (is_plain_char c) (only_plain t) h)
      ∙ rw append_assoc refl

  -- What a single quote leaves of a script.
  abbrev behind : Text → List Text → Text → Words
  behind t ws w = scan_rest env (single_step (before_char quote t) (within ws w true))

  behind-quote :
      (t : Text) (ws : List Text) (w : Text)
      → behind (quote ∷ b'\\' ∷ quote ∷ quote ∷ t) ws w ≡ behind t ws (w ++ (quote ∷ []))
  unfolding before_char script_step escape_step
  behind-quote t ws w =
      scan_all_lem env b'\\' (quote ∷ quote ∷ t) (within ws (w ++ []) true)
      ∙ scan_all_lem env quote t (within ws ((w ++ []) ++ (quote ∷ [])) true)
      ∙ rw (append-nil w) refl

  behind-char :
      (c : ℕ) (t : Text) (ws : List Text) (w : Text)
      → (c == quote) ≡ false
      → behind (c ∷ t) ws w ≡ behind t ws (w ++ (c ∷ []))
  unfolding before_char
  behind-char c t ws w e = rw (e, if◌then◌else◌, append_assoc) refl

  scan-quoted :
      (t rest : Text) (ws : List Text) (w : Text)
      → behind (escape_quotes t ++ (quote ∷ rest)) ws w
        ≡ scan_all env rest (within ws (w ++ t) true)
  unfolding escape_quotes before_char
  scan-quoted [] rest ws w = refl
  scan-quoted (c ∷ t) rest ws w =
      let more = escape_quotes t ++ (quote ∷ rest) in
      elim (Bool-cases (c == quote)) [
        | inl e ↦
            rw (e, if◌then◌else◌)
              (behind-quote more ws w
                ∙ scan-quoted t rest ws (w ++ (quote ∷ []))
                ∙ rw (append_assoc, (==_iff c quote).0 e) refl)
        | inr e ↦
            rw (e, if◌then◌else◌)
              (behind-char c more ws w e
                ∙ scan-quoted t rest ws (w ++ (c ∷ []))
                ∙ rw append_assoc refl)
      ]

  opening :
      (t : Text) (ws : List Text) → scan_all env (quote ∷ t) (within ws [] false) ≡ behind t ws []
  unfolding script_step
  opening t ws = scan_all_lem env quote t (within ws [] false)

  scan-arg :
      (a rest : Text) (ws : List Text)
      → IsQuotable a
      → scan_all env (quote_arg a ++ rest) (within ws [] false)
        ≡ scan_all env rest (within ws a true)
  unfolding quote_arg is_plain
  scan-arg [] rest ws q = opening (quote ∷ rest) ws ∙ scan-quoted [] rest ws []
  scan-arg (c ∷ cs) rest ws q = elim (Bool-cases (is_plain (c ∷ cs))) [
    | inl e ↦
        let p = only_plain-is_plain (c ∷ cs) q e in
        rw (e, if◌then◌else◌)
          (scan_all_lem env c (cs ++ rest) (within ws [] false)
            ∙ ap (scan_rest env) (
                script_step-plain env c (cs ++ rest) (within ws [] false)
                  (and-left (is_plain_char c) (only_plain cs) p))
            ∙ scan-plain cs rest ws (c ∷ []) (and-right (is_plain_char c) (only_plain cs) p))
    | inr e ↦
        rw (e, if◌then◌else◌, append_assoc)
          (opening (escape_quotes (c ∷ cs) ++ (quote ∷ rest)) ws ∙ scan-quoted (c ∷ cs) rest ws [])
  ]

  scan-space :
      (cs : Text) (ws : List Text) (w : Text)
      → scan_all env (b' ' ∷ cs) (within ws w true)
        ≡ scan_all env cs (within (ws ++ (w ∷ [])) [] false)
  unfolding script_step end_word is_space
  scan-space cs ws w = scan_all_lem env b' ' cs (within ws w true)

  -- The last word ends with the script.
  scan-shell_quote :
      (a : Text) (bs ws : List Text)
      → AllOf IsQuotable (a ∷ bs)
      → end_word (scan_all env (shell_quote (a ∷ bs)) (within ws [] false))
        ≡ within (ws ++ (a ∷ bs)) [] false
  unfolding shell_quote join end_word scan
  scan-shell_quote a [] ws (q, h) =
      let whole = λ (t : Text). scan_all env t (within ws [] false) in
      ap end_word (sym (ap whole (append-nil (quote_arg a))) ∙ scan-arg a [] ws q)
  scan-shell_quote a (b ∷ cs) ws (q, h) =
      ap end_word
        (scan-arg a (b' ' ∷ shell_quote (b ∷ cs)) ws q ∙ scan-space (shell_quote (b ∷ cs)) ws a)
      ∙ scan-shell_quote b cs (ws ++ (a ∷ [])) h
      ∙ rw append_assoc refl

-- The manager reads a line that it wrote for a shell as one command with the same arguments, and
-- with no note, whatever the environment has, if no argument is of plain characters with a newline
-- at its end.
pub split_commands-shell_quote :
    (env : Environment) (a : Text) (bs : List Text)
    → AllOf IsQuotable (a ∷ bs)
    → split_commands env (shell_quote (a ∷ bs)) ≡ ((a ∷ bs) ∷ [], [])
unfolding split_commands end_command
split_commands-shell_quote env a bs h =
    ap (λ (s : Words). ((push_command s).commands, (push_command s).notes))
      (scan-shell_quote env a bs [] h)
