-- ===== src/VmRunner/CommandLine.antt =====
-- src/core/vmrunner.cpp: the QEMU command line of a run.
use qemu_gui_manager.VmHardware.Machine.{machine_type}
use qemu_gui_manager.Text.{Text, codes, is_empty, text_eq, one_of, starts_with, contains, file_name}
use qemu_gui_manager.Prelude.{
  ℕ, suc, Bool, not, ◌&&◌, ◌||◌, List, [], ◌∷◌, ◌++◌, ltb, leb, ◌==◌, if◌then◌else◌, length, drop,
}
use qemu_gui_manager.Numbers.{number}
use qemu_gui_manager.OptionValue.{escape}
use qemu_gui_manager.ArgsFile.{ArgsFile, to_text, argv}
use qemu_gui_manager.VmConfig.Name.{name, qemu_binary}
use qemu_gui_manager.VmConfig.Shares.{shares, Share}

-- What the manager's settings and the host tell: the preference, QDir::homePath(),
-- Paths::hostArch(), Paths::runtimeDir(); `local_size` is toLocal8Bit().size(), `short_hash` the
-- first 16 digits of the SHA-1 in hex, `base64` that of the text in UTF-8.
pub record Host : Type 0 where
  pub preferred_qemu : Text
  pub virtiofsd : Text
  pub home : Text
  pub arch : Text
  pub runtime_dir : Text
  pub local_size : Text → ℕ
  pub short_hash : Text → Text
  pub base64 : Text → Text

-- sharesToMount
unfoldable pub shares_to_mount : ArgsFile → List Share
unfolding shares
shares_to_mount args = to_mount (shares args)
  where
    to_mount : List Share → List Share
    to_mount [] = []
    to_mount (s ∷ ss) = let rest = to_mount ss in if is_empty s.mount then rest else s ∷ rest

-- addsAgent
unfoldable pub adds_agent : ArgsFile → Bool
unfolding shares_to_mount to_text contains
adds_agent args =
    not (is_empty (shares_to_mount args))
    && not (contains (to_text args) (codes "org.qemu.guest_agent.0"))

-- mountEscape: the replacements one after the other give the same as all at once, as none of what
-- they put in holds a character that a later one replaces.
unfoldable pub mount_escape : Text → Text
mount_escape [] = []
mount_escape (c ∷ cs) =
    let rest = mount_escape cs in
    if c == b'\\'
    then codes "\\134" ++ rest
    else if c == b' '
    then codes "\\040" ++ rest
    else if c == b'\t'
    then codes "\\011" ++ rest
    else if c == b'\n'
    then codes "\\012" ++ rest
    else c ∷ rest

unfoldable pub fstab_line : Share → Text
unfolding mount_escape
fstab_line s =
    mount_escape s.tag
    ++ (b' '
        ∷ (mount_escape s.mount
            ++ (codes " virtiofs "
                ++ ((if s.readonly then codes "ro,nofail" else codes "nofail") ++ codes " 0 0"))))

-- qemuFor
unfoldable pub qemu_for : Host → ArgsFile → Text
unfolding qemu_binary
qemu_for h args =
    let own = qemu_binary h.home args in if is_empty own then h.preferred_qemu else own

-- `[a-z0-9_]`
abbrev is_arch_char : ℕ → Bool
is_arch_char c = (leb b'a' c && leb c b'z') || (leb b'0' c && leb c b'9') || c == b'_'

take_arch : Text → Text
take_arch [] = []
take_arch (c ∷ cs) = let rest = take_arch cs in if is_arch_char c then c ∷ rest else []

abbrev qemu_system : Text
qemu_system = codes "qemu-system-"

-- The regular expression ^qemu-system-([a-z0-9_]+), else the host's architecture.
unfoldable pub target_arch : Host → Text → Text
unfolding starts_with take_arch
target_arch h name =
    let arch = take_arch (drop (length qemu_system) name) in
    if starts_with name qemu_system && not (is_empty arch) then arch else h.arch

abbrev smbios_targets : List Text
smbios_targets =
    codes "x86_64"
    ∷ codes "i386"
    ∷ codes "aarch64"
    ∷ codes "arm"
    ∷ codes "riscv64"
    ∷ codes "riscv32"
    ∷ codes "loongarch64"
    ∷ []

fstab_lines : List Share → Text
unfolding fstab_line
fstab_lines [] = []
fstab_lines (s ∷ ss) = fstab_line s ++ (b'\n' ∷ fstab_lines ss)

unfoldable pub fstab_extra : Host → ArgsFile → Text
unfolding one_of target_arch file_name qemu_for contains to_text text_eq machine_type fstab_lines
    shares_to_mount
fstab_extra h args =
    if not (one_of (target_arch h (file_name (qemu_for h args))) smbios_targets)
      || contains (to_text args) (codes "fstab.extra")
      || text_eq (machine_type args) (codes "isapc")
    then []
    else fstab_lines (shares_to_mount args)

unfoldable pub run_dir : Host → Text → Text
run_dir h id =
    if ltb 88 (h.local_size (h.runtime_dir ++ (b'/' ∷ id)))
    then h.runtime_dir ++ (b'/' ∷ h.short_hash id)
    else h.runtime_dir ++ (b'/' ∷ id)

abbrev pub qmp_path : Text → Text
qmp_path dir = dir ++ codes "/qmp.sock"

abbrev pub pid_path : Text → Text
pid_path dir = dir ++ codes "/qemu.pid"

unfoldable pub share_path : Text → ℕ → Text
unfolding number
share_path dir i = dir ++ (codes "/fs" ++ (number i ++ codes ".sock"))

abbrev pub agent_path : Text → Text
agent_path dir = dir ++ codes "/qga.sock"

unfoldable pub qmp_arg : Text → Text
unfolding escape
qmp_arg dir = codes "unix:" ++ (escape (qmp_path dir) ++ codes ",server=on,wait=off")

share_args : Text → ℕ → List Share → List Text
unfolding number share_path escape
share_args dir i [] = []
share_args dir i (s ∷ ss) =
    codes "-chardev"
    ∷ (codes "socket,id=qgm-fs" ++ (number i ++ (codes ",path=" ++ escape (share_path dir i))))
    ∷ codes "-device"
    ∷ (codes "vhost-user-fs-pci,queue-size=1024,chardev=qgm-fs"
        ++ (number i ++ (codes ",tag=" ++ escape s.tag)))
    ∷ share_args dir (suc i) ss

abbrev fstab_args : Host → Text → List Text
fstab_args h [] = []
fstab_args h (c ∷ cs) =
    codes "-smbios"
    ∷ (codes "type=11,value=io.systemd.credential.binary:fstab.extra=" ++ h.base64 (c ∷ cs))
    ∷ []

agent_args : Text → List Text
unfolding escape
agent_args dir =
    codes "-chardev"
    ∷ (codes "socket,id=qgm-ga,path=" ++ (escape (agent_path dir) ++ codes ",server=on,wait=off"))
    ∷ codes "-device"
    ∷ codes "virtio-serial-pci,id=qgm-serial"
    ∷ codes "-device"
    ∷ codes
        "virtserialport,bus=qgm-serial.0,chardev=qgm-ga,name=org.qemu.guest_agent.0,id=qgm-ga-port"
    ∷ []

-- The arguments of `commandLine` behind the program.
unfoldable pub qemu_args : Host → Text → ArgsFile → List Text
unfolding argv shares share_args fstab_extra adds_agent agent_args qmp_arg
qemu_args h dir args =
    argv args
    ++ (share_args dir 0 (shares args)
        ++ (fstab_args h (fstab_extra h args)
            ++ ((if adds_agent args then agent_args dir else [])
                ++ (codes "-qmp" ∷ qmp_arg dir ∷ codes "-pidfile" ∷ pid_path dir ∷ []))))
