-- ===== src/VmRunner/Mounts.antt =====
-- src/core/vmrunner.cpp: the shared folders that the guest mounts.
use qemu_gui_manager.Prelude.{
  ℕ, ◌+◌, ◌-◌, ◌*◌, ◌≡◌, refl, ap, ◌∙◌, inl, inr, Bool, false, not, Option, none, some, List, [],
  ◌∷◌, ◌++◌, arith, ◌==◌, if◌then◌else◌, ==_iff, Bool-cases, Option-cases, length, length-append,
}
use qemu_gui_manager.Text.{Text, codes, is_empty, trimmed}
use qemu_gui_manager.Numbers.{number_ℤ, ℤ, pos, negsuc}
use qemu_gui_manager.VmConfig.Shares.{Share}
use qemu_gui_manager.VmRunner.CommandLine.{mount_escape, fstab_line}

-- How fstab and mountinfo are read: a backslash and three octal digits are one character.
pub unescape : Text → Text
unescape [] = []
unescape (c ∷ []) = c ∷ []
unescape (c ∷ d ∷ []) = c ∷ d ∷ []
unescape (c ∷ d ∷ e ∷ []) = c ∷ d ∷ e ∷ []
unescape (c ∷ d ∷ e ∷ f ∷ cs) =
    let behind = unescape cs in
    let next = unescape (d ∷ e ∷ f ∷ cs) in
    if c == b'\\' then ((d - 48) * 64 + (e - 48) * 8 + (f - 48)) ∷ behind else c ∷ next

unescape-plain : (c : ℕ) (t : Text) → (c == b'\\') ≡ false → unescape (c ∷ t) ≡ c ∷ unescape t
unfolding unescape
unescape-plain c [] h = refl
unescape-plain c (d ∷ []) h = refl
unescape-plain c (d ∷ e ∷ []) h = refl
unescape-plain c (d ∷ e ∷ f ∷ cs) h = rw (h, if◌then◌else◌) refl

unescape-code :
    (d e f : ℕ) (cs : Text)
    → unescape (b'\\' ∷ d ∷ e ∷ f ∷ cs) ≡ ((d - 48) * 64 + (e - 48) * 8 + (f - 48)) ∷ unescape cs
unfolding unescape
unescape-code d e f cs = refl

-- A text that is escaped for fstab is read back as it was.
unescape-mount_escape : (t : Text) → unescape (mount_escape t) ≡ t
unfolding mount_escape
unescape-mount_escape [] = unfold unescape in refl
unescape-mount_escape (c ∷ cs) = elim (Bool-cases (c == b'\\')) [
  | inl e ↦
      rw (e, if◌then◌else◌)
        (unescape-code b'1' b'3' b'4' (mount_escape cs)
          ∙ cc (unescape-mount_escape cs, (==_iff c b'\\').0 e))
  | inr e ↦ elim (Bool-cases (c == b' ')) [
    | inl s ↦
        rw (e, s, if◌then◌else◌)
          (unescape-code b'0' b'4' b'0' (mount_escape cs)
            ∙ cc (unescape-mount_escape cs, (==_iff c b' ').0 s))
    | inr s ↦ elim (Bool-cases (c == b'\t')) [
      | inl t ↦
          rw (e, s, t, if◌then◌else◌)
            (unescape-code b'0' b'1' b'1' (mount_escape cs)
              ∙ cc (unescape-mount_escape cs, (==_iff c b'\t').0 t))
      | inr t ↦ elim (Bool-cases (c == b'\n')) [
        | inl n ↦
            rw (e, s, t, n, if◌then◌else◌)
              (unescape-code b'0' b'1' b'2' (mount_escape cs)
                ∙ cc (unescape-mount_escape cs, (==_iff c b'\n').0 n))
        | inr n ↦
            rw (e, s, t, n, if◌then◌else◌)
              (unescape-plain c (mount_escape cs) e ∙ ap (◌∷◌ c) (unescape-mount_escape cs))
      ]
    ]
  ]
]

-- GuestAgent::ExecResult
pub record ExecResult : Type 0 where
  pub error : Text
  pub exit_code : ℤ
  pub err : Text

abbrev confined : ℕ
confined = 77

abbrev is_code : ℕ → ℤ → Bool
is_code n (pos m) = m == n
is_code n (negsuc m) = false

-- What mount ended with, for a share that is not mounted; `none` for one that is.
unfoldable pub mount_problem : Share → ExecResult → Option Text
unfolding fstab_line trimmed number_ℤ
mount_problem s r =
    if not (is_empty r.error)
    then some (s.mount ++ (codes ": " ++ r.error))
    else if is_code confined r.exit_code
    then some (
        s.mount
        ++ (codes
              ": the guest did not mount it at boot (systemd 254 and later do), and SELinux keeps the guest agent from mounting it. Mount it with this line in the guest's /etc/fstab:\n"
            ++ fstab_line s))
    else if not (is_code 0 r.exit_code)
    then some (
        s.mount
        ++ (codes ": "
            ++ (if is_empty (trimmed r.err)
                then codes "mount ended with " ++ number_ℤ r.exit_code
                else trimmed r.err)))
    else none

-- mountNext; `guest` is what the agent's exec gives for each share. The result is what endMounts
-- reports.
unfoldable pub mount_next :
    (Share → ExecResult) → List Share → List Text → List Text → List Text × List Text
unfolding mount_problem
mount_next guest [] mounted problems = (mounted, problems)
mount_next guest (s ∷ ss) mounted problems = elim (mount_problem s (guest s)) [
  | none ↦ mount_next guest ss (mounted ++ (s.mount ∷ [])) problems
  | some p ↦ mount_next guest ss mounted (problems ++ (p ∷ []))
]

-- Every share is reported once, as mounted or as a problem.
mount_next-length :
    (guest : Share → ExecResult) (ss : List Share) (mounted problems : List Text)
    → length (mount_next guest ss mounted problems).0
        + length (mount_next guest ss mounted problems).1
      ≡ length mounted + length problems + length ss
unfolding mount_next
mount_next-length guest [] mounted problems = omega arith
mount_next-length guest (s ∷ ss) mounted problems =
    elim (Option-cases (mount_problem s (guest s))) [
      | inl e ↦
          rw (e, mount_next)
            (omega (
              arith,
              mount_next-length guest ss (mounted ++ (s.mount ∷ [])) problems,
              length-append mounted (s.mount ∷ []),
            ))
      | inr (p, e) ↦
          rw (e, mount_next)
            (omega (
              arith,
              mount_next-length guest ss mounted (problems ++ (p ∷ [])),
              length-append problems (p ∷ []),
            ))
    ]
