-- ===== src/VmRunner/Quoting.antt =====
-- src/core/vmrunner.cpp: the command line as qemu.log shows it, to be pasted into a shell.
use qemu_gui_manager.Prelude.{
  ℕ, ◌≡◌, refl, ap, ◌∙◌, inl, inr, Bool, true, false, ◌&&◌, ◌||◌, some, List, [], ◌∷◌, ◌++◌, map,
  append-nil, append_assoc, arith, leb, ◌==◌, if◌then◌else◌, ==_iff, Bool-cases, AllOf,
}
use qemu_gui_manager.Text.{Text, is_empty, join}
use qemu_gui_manager.VmRunner.Shell.{
  quote, is_special, prepend, shell_words, between, in_word, in_quotes,
}

-- `[A-Za-z0-9_@%+=:,./-]`
unfoldable pub is_plain_char : ℕ → Bool
is_plain_char c =
    (leb b'a' c && leb c b'z')
    || (leb b'A' c && leb c b'Z')
    || (leb b'0' c && leb c b'9')
    || c == b'_'
    || c == b'@'
    || c == b'%'
    || c == b'+'
    || c == b'='
    || c == b':'
    || c == b','
    || c == b'.'
    || c == b'/'
    || c == b'-'

-- `[...]*$`: `$` also matches before a newline at the end.
unfoldable pub all_plain : Text → Bool
all_plain [] = true
all_plain (c ∷ cs) = (is_plain_char c && all_plain cs) || (c == b'\n' && is_empty cs)

-- `^[...]+$`
unfoldable pub is_plain : Text → Bool
unfolding all_plain
is_plain [] = false
is_plain (c ∷ cs) = is_plain_char c && all_plain cs

-- QString(arg).replace("'", "'\\''")
unfoldable pub escape_quotes : Text → Text
escape_quotes [] = []
escape_quotes (c ∷ cs) =
    let rest = escape_quotes cs in
    if c == quote then quote ∷ b'\\' ∷ quote ∷ quote ∷ rest else c ∷ rest

unfoldable pub quote_arg : Text → Text
unfolding is_plain escape_quotes
quote_arg arg = if is_plain arg then arg else quote ∷ (escape_quotes arg ++ (quote ∷ []))

-- shellQuote
unfoldable pub shell_quote : List Text → Text
unfolding quote_arg join
shell_quote args = join b' ' (map quote_arg args)

-- An argument of plain characters and a newline at its end, which stays unquoted.
abbrev pub ends_line : Text → Bool
ends_line [] = false
ends_line (c ∷ []) = c == b'\n'
ends_line (c ∷ d ∷ cs) = ends_line (d ∷ cs)

abbrev pub IsQuotable : Text → Type 0
IsQuotable t = is_plain t && ends_line t ≡ false

abbrev pub only_plain : Text → Bool
only_plain [] = true
only_plain (c ∷ cs) = is_plain_char c && only_plain cs

only_plain-all_plain :
    (c : ℕ) (t : Text) → all_plain t ≡ true → ends_line (c ∷ t) ≡ false → only_plain t ≡ true
unfolding all_plain
only_plain-all_plain c [] h e = refl
only_plain-all_plain c (d ∷ []) h e = ground arith
only_plain-all_plain c (d ∷ f ∷ t) h e = ground (arith, only_plain-all_plain d (f ∷ t))

-- A quotable argument that is not quoted has plain characters only.
pub only_plain-is_plain : (t : Text) → IsQuotable t → is_plain t ≡ true → only_plain t ≡ true
unfolding is_plain
only_plain-is_plain [] q h = refl
only_plain-is_plain (c ∷ cs) q h = ground (arith, only_plain-all_plain c cs)

pub plain-ne : (c k : ℕ) → is_plain_char c ≡ true → is_plain_char k ≡ false → (c == k) ≡ false
plain-ne c k p q = elim (Bool-cases (c == k)) [
  | inr e ↦ e
  | inl e ↦ cc (ap is_plain_char ((==_iff c k).0 e), p, q)
]

is_special-plain : (c : ℕ) → is_plain_char c ≡ true → is_special c ≡ false
unfolding is_plain_char
is_special-plain c p =
    rw
      (
        plain-ne c b'\t' p refl,
        plain-ne c b'\n' p refl,
        plain-ne c b'"' p refl,
        plain-ne c b'$' p refl,
        plain-ne c b'`' p refl,
        plain-ne c b'&' p refl,
        plain-ne c b'|' p refl,
        plain-ne c b';' p refl,
        plain-ne c b'<' p refl,
        plain-ne c b'>' p refl,
        plain-ne c b'(' p refl,
        plain-ne c b')' p refl,
        plain-ne c b'*' p refl,
        plain-ne c b'?' p refl,
        plain-ne c b'[' p refl,
        plain-ne c b'#' p refl,
        plain-ne c b'~' p refl,
        plain-ne c b'!' p refl,
        plain-ne c b'{' p refl,
        plain-ne c b'}' p refl,
      )
      refl

word-plain :
    (c : ℕ) (cur cs : Text)
    → is_plain_char c ≡ true
    → shell_words in_word cur (c ∷ cs) ≡ shell_words in_word (cur ++ (c ∷ [])) cs
unfolding shell_words is_plain_char
word-plain c cur cs p =
    rw
      (
        plain-ne c b' ' p refl,
        plain-ne c quote p refl,
        plain-ne c b'\\' p refl,
        is_special-plain c p,
      )
      refl

between-plain :
    (c : ℕ) (cs : Text)
    → is_plain_char c ≡ true
    → shell_words between [] (c ∷ cs) ≡ shell_words in_word (c ∷ []) cs
unfolding shell_words is_plain_char
between-plain c cs p =
    rw
      (
        plain-ne c b' ' p refl,
        plain-ne c quote p refl,
        plain-ne c b'\\' p refl,
        is_special-plain c p,
      )
      refl

pub and-left : (a b : Bool) → a && b ≡ true → a ≡ true
and-left true b h = refl
and-left false b h = h

pub and-right : (a b : Bool) → a && b ≡ true → b ≡ true
and-right true b h = h
and-right false b h = cc

words-plain :
    (t cur rest : Text)
    → only_plain t ≡ true
    → shell_words in_word cur (t ++ rest) ≡ shell_words in_word (cur ++ t) rest
words-plain [] cur rest h = rw (append-nil cur) refl
words-plain (c ∷ t) cur rest h =
    word-plain c cur (t ++ rest) (and-left (is_plain_char c) (only_plain t) h)
    ∙ words-plain t (cur ++ (c ∷ [])) rest (and-right (is_plain_char c) (only_plain t) h)
    ∙ rw append_assoc refl

words-quoted :
    (t cur rest : Text)
    → shell_words in_quotes cur (escape_quotes t ++ (quote ∷ rest))
      ≡ shell_words in_word (cur ++ t) rest
unfolding escape_quotes shell_words
words-quoted [] cur rest = rw (append-nil cur) refl
words-quoted (c ∷ t) cur rest = elim (Bool-cases (c == quote)) [
  | inl e ↦
      rw (e, if◌then◌else◌)
        (words-quoted t (cur ++ (quote ∷ [])) rest ∙ rw (append_assoc, (==_iff c quote).0 e) refl)
  | inr e ↦ rw (e, if◌then◌else◌, e) (words-quoted t (cur ++ (c ∷ [])) rest ∙ rw append_assoc refl)
]

words-arg :
    (a rest : Text)
    → IsQuotable a
    → shell_words between [] (quote_arg a ++ rest) ≡ shell_words in_word a rest
unfolding quote_arg is_plain
words-arg [] rest q = unfold shell_words in refl
words-arg (c ∷ cs) rest q = elim (Bool-cases (is_plain (c ∷ cs))) [
  | inl e ↦
      let p = only_plain-is_plain (c ∷ cs) q e in
      rw (e, if◌then◌else◌)
        (between-plain c (cs ++ rest) (and-left (is_plain_char c) (only_plain cs) p)
          ∙ words-plain cs (c ∷ []) rest (and-right (is_plain_char c) (only_plain cs) p))
  | inr e ↦
      rw (e, if◌then◌else◌) (unfold shell_words in rw append_assoc (words-quoted (c ∷ cs) [] rest))
]

words-space :
    (a cs : Text) → shell_words in_word a (b' ' ∷ cs) ≡ prepend a (shell_words between [] cs)
unfolding shell_words
words-space a cs = refl

-- A shell reads the line that `shellQuote` gives as the same arguments, if none of them is of plain
-- characters with a newline at its end.
pub shell_words-shell_quote :
    (args : List Text)
    → AllOf IsQuotable args
    → shell_words between [] (shell_quote args) ≡ some args
unfolding shell_quote join
shell_words-shell_quote [] h = unfold shell_words in refl
shell_words-shell_quote (a ∷ []) (q, h) =
    rw⁻¹ (append-nil (quote_arg a)) (words-arg a [] q ∙ (unfold shell_words in refl))
shell_words-shell_quote (a ∷ b ∷ bs) (q, h) =
    words-arg a (b' ' ∷ shell_quote (b ∷ bs)) q
    ∙ words-space a (shell_quote (b ∷ bs))
    ∙ ap (prepend a) (shell_words-shell_quote (b ∷ bs) h)
