-- ===== src/Update/Paths.antt =====
-- The paths that an installed update may write: `target` and `effect_target` of
-- lib/installed_update_transaction.py, without their look at the file system (aliases and owners).
use Prim.Native.String.{◌++◌}
use text.Mathlib.Text.{starts_with}
use opemos.Prelude.{
  ℕ, String, Bool, true, false, not, ◌&&◌, ◌||◌, List, [], ◌∷◌, map, ◌==◌, str_eq, if◌then◌else◌,
  all, any, some,
}
use opemos.Prelude.Regex.{Regex, class, seq, rep, word, plus, one_of, alnum, codes, matches}
use opemos.Prelude.Results.{Result, need, ◌>>◌}

-- `name in {...}`
abbrev pub member : String → List String → Bool
member name names = any (λ other. str_eq other name) names

abbrev modules : List String
modules = "nvidia" ∷ "nvidia-drm" ∷ "nvidia-modeset" ∷ "nvidia-peermem" ∷ "nvidia-uvm" ∷ []

abbrev caches : List String
caches =
    "modules.dep" ∷ "modules.dep.bin" ∷ "modules.alias" ∷ "modules.alias.bin" ∷ "modules.softdep"
    ∷ "modules.symbols" ∷ "modules.symbols.bin" ∷ "modules.builtin.bin"
    ∷ "modules.builtin.alias.bin" ∷ "modules.devname" ∷ "modules.weakdep" ∷ []

abbrev guardian_files : List String
guardian_files =
    "lib/recovery_public_status.py" ∷ "lib/offline_generation.py"
    ∷ "bootstrap/run_repair_with_interstitial.sh" ∷ "lib/install_guardian_generation.py"
    ∷ "lib/installed_boot_guard.py" ∷ "bootstrap/install.sh"
    ∷ "bootstrap/launch_desktop_companion.sh" ∷ "bootstrap/launch_interstitial.sh"
    ∷ "bootstrap/online_install.sh" ∷ "bootstrap/recoveryctl.sh"
    ∷ "bootstrap/run_guardian_with_interstitial.sh" ∷ "bootstrap/show_recovery_console.sh"
    ∷ "lib/atomic_output.py" ∷ "lib/capture_bounded_command.py" ∷ "lib/common.sh"
    ∷ "lib/desktop_update_generations.py" ∷ "lib/installed_driver_candidate.py"
    ∷ "lib/installed_update_transaction.py" ∷ "lib/interstitial_progress.py"
    ∷ "lib/open_opemos_contract.py" ∷ "lib/payload_receipt.py" ∷ "lib/recovery_cached_product.py"
    ∷ "lib/recovery_cached_receipt.py" ∷ "lib/recovery_fallback_state.py" ∷ "lib/recovery_policy.py"
    ∷ "lib/recovery_release_plan.py" ∷ "lib/recovery_status.py" ∷ "lib/recovery_transaction.py"
    ∷ "lib/run_in_process_group.py" ∷ "lib/snapshot_install_input.py"
    ∷ "lib/snapshot_target_execution.py" ∷ "lib/update_recovery_grub_args.py"
    ∷ "lib/validate_github_meta.py" ∷ "lib/validate_interstitial_binary.py"
    ∷ "lib/validate_recovery_install_path.py" ∷ "lib/verify_initramfs.py"
    ∷ "lib/verify_installed_modules.py" ∷ "trust/desktop-update-signers.json" ∷ []

abbrev guardian_home : String
guardian_home = "home/.steamos/open-gpu-kernel-modules-steamos-support/recovery/"

-- The keys of `LINK_TARGETS`.
abbrev link_paths : List String
link_paths =
    "etc/systemd/system/default.target"
    ∷ "etc/systemd/system/multi-user.target.wants/opemos-nvidia-guardian.service"
    ∷ "etc/systemd/system/multi-user.target.wants/opemos-interstitial.service"
    ∷ "etc/systemd/system/timers.target.wants/opemos-nvidia-repair.timer"
    ∷ "etc/systemd/system/timers.target.wants/opemos-nvidia-health.timer" ∷ []

abbrev etc_configs : List String
etc_configs =
    "etc/modprobe.d/99-open-gpu-kernel-modules-steamos.conf"
    ∷ "etc/modprobe.d/98-opemos-recovery.conf"
    ∷ "etc/mkinitcpio.conf.d/90-open-gpu-kernel-modules-steamos.conf" ∷ "etc/default/grub" ∷ []

abbrev boot_configs : List String
boot_configs = "boot/grub/grub.cfg" ∷ "efi/EFI/steamos/grub.cfg" ∷ []

abbrev states : List String
states =
    "installed-build-info.txt" ∷ "installed-archive.txt" ∷ "installed-kernel.txt"
    ∷ "installed-nvidia.txt" ∷ "recovery/state.json" ∷ "recovery/grub.before-fallback"
    ∷ "recovery/grub.cfg.before-fallback" ∷ "recovery/cached-repair-receipt.json" ∷ []

abbrev guardian_values : List String
guardian_values =
    "support-revision" ∷ "nvidia-version" ∷ "interstitial.sha256" ∷ "bin/opemos-interstitial" ∷ []

abbrev guardian_units : List String
guardian_units =
    "opemos-nvidia-guardian.service" ∷ "opemos-nvidia-health.service" ∷ "opemos-nvidia-health.timer"
    ∷ "opemos-interstitial.service" ∷ "opemos-nvidia-repair.service" ∷ "opemos-nvidia-repair.timer"
    ∷ []

abbrev guardian_hooks : List String
guardian_hooks =
    "etc/NetworkManager/dispatcher.d/90-opemos-nvidia-repair"
    ∷ "etc/atomic-update.conf.d/90-opemos-nvidia-guardian.conf" ∷ []

abbrev prefixed : String → List String → List String
prefixed prefix names = map (λ name. prefix ++ name) names

abbrev suffixed : String → List String → List String
suffixed suffix names = map (λ name. name ++ suffix) names

-- `boot/initramfs-[A-Za-z0-9_.+-]+\.img`
abbrev pub boot_image : Regex
boot_image =
    seq (word "boot/initramfs-")
      (seq (plus (class (λ c. alnum c || one_of "_.+-" c))) (word ".img"))

-- `[A-Za-z0-9_.+-]{1,192}`
abbrev pub kernel_name : Regex
kernel_name = rep 1 (some 192) (class (λ c. alnum c || one_of "_.+-" c))

-- The parts of a path between its slashes.
split_path : List ℕ → List ℕ → List (List ℕ)
split_path part [] = part ∷ []
split_path part (c ∷ cs) =
    let rest = split_path [] cs in
    let longer = split_path (c ∷ part) cs in if c == b'/' then part ∷ rest else longer

-- A part that `Path` keeps as it is and that does not climb: not empty, `.` or `..`.
plain_part : List ℕ → Bool
plain_part [] = false
plain_part (c ∷ []) = not (c == b'.')
plain_part (c ∷ d ∷ []) = not (c == b'.' && d == b'.')
plain_part _ = true

-- `relative == str(Path(relative)) and not relative.startswith('/') and '..' not in parts`
relative_path : String → Bool
unfolding split_path plain_part
relative_path path = all plain_part (split_path [] (codes path))

-- `allowed`, the paths that belong to the installed driver, its boot files and its guardian.
allowed_path : String → String → Bool
unfolding matches
allowed_path path kernel =
    let module_root = "usr/lib/modules/" ++ kernel ++ "/" in
    member path (prefixed guardian_home guardian_files)
    || member path (prefixed guardian_home guardian_values)
    || member path (prefixed "etc/systemd/system/" guardian_units)
    || member path guardian_hooks
    || member path etc_configs
    || member path boot_configs
    || member path (suffixed ".opemos-disabled" etc_configs)
    || member path (prefixed "var/lib/open-gpu-kernel-modules-steamos-support/" states)
    || member path link_paths
    || matches boot_image path
    || member path (prefixed module_root caches)
    || member path (
        prefixed (module_root ++ "updates/open-gpu-kernel-modules-steamos/")
          (suffixed ".ko.zst" modules))

-- `control`: the files by which recovery itself is started.
control_path : String → Bool
control_path path =
    starts_with path guardian_home
    || (starts_with path "etc/systemd/system/"
        && not (str_eq path "etc/systemd/system/default.target"))
    || starts_with path "etc/NetworkManager/"
    || starts_with path "etc/atomic-update.conf.d/"

-- `target`
unfoldable pub target : String → String → Result (Unit {0})
unfolding relative_path allowed_path
target path kernel = do
  need (relative_path path) "unsafe transaction path"
  need (allowed_path path kernel) "unplanned installed driver/boot/receipt effect"

-- `effect_target`; its last argument is `action == 'guardian-update'`.
unfoldable pub effect_target : String → String → Bool → Result (Unit {0})
unfolding target control_path
effect_target path kernel guardian = do
  target path kernel
  need (guardian || not (control_path path)) "driver effect cannot change recovery authority"
