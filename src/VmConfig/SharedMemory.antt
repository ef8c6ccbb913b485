-- ===== src/VmConfig/SharedMemory.antt =====
-- VmConfig::useSharedMemory and the id of the memory backend that it adds.
use qemu_gui_manager.Prelude.{
  ℕ, zero, suc, ◌≡◌, refl, sym, ap, inl, inr, false, some, arith, Option-cases, length, drop,
}
use qemu_gui_manager.Numbers.Decimal.{number-ne-nil, number-injective}
use qemu_gui_manager.Text.{Text, one_of}
use qemu_gui_manager.Numbers.{Conversions}
use qemu_gui_manager.ArgsFile.{ArgsFile, value_at, set_value_at}
use qemu_gui_manager.Fresh.{first_free_total, first_free-is_free}
use qemu_gui_manager.VmConfig.Memory.{
  ram_backend, memory_mib, object_ids, mem_id, free_mem_id, add_backend, kept_mib, shared_backend,
  use_shared_memory,
}

mem_id-injective : (m n : ℕ) → mem_id m ≡ mem_id n → m ≡ n
unfolding mem_id
mem_id-injective zero zero e = refl
mem_id-injective zero (suc n) e = absurd (number-ne-nil (suc n) (sym (ap (drop 3) e)))
mem_id-injective (suc m) zero e = absurd (number-ne-nil (suc m) (ap (drop 3) e))
mem_id-injective (suc m) (suc n) e = number-injective (suc m) (suc n) (ap (drop 3) e)

-- An id for the new memory backend is always found, and it is the id of no -object line.
free_mem_id-is_free :
    (args : ArgsFile)
    → (id : Text) × (free_mem_id args ≡ some id) × (one_of id (object_ids args) ≡ false)
unfolding free_mem_id
free_mem_id-is_free args =
    let used = object_ids args in
    let (n, e) =
      first_free_total mem_id mem_id-injective (suc (length used)) used 0 (omega arith) in
    (mem_id n, e, first_free-is_free mem_id (suc (length used)) used 0 e)

-- `useSharedMemory` gives a result for every file: its loop over the ids always ends.
pub use_shared_memory-total :
    (q : Conversions) (args : ArgsFile) → (out : ArgsFile) × (use_shared_memory q args ≡ some out)
unfolding use_shared_memory
use_shared_memory-total q args = elim (Option-cases (ram_backend args)) [
  | inr (b, e) ↦
      (set_value_at b (shared_backend (value_at args b)) args, rw (e, use_shared_memory) refl)
  | inl e ↦
      let (id, f, free) = free_mem_id-is_free args in
      (add_backend q (kept_mib (memory_mib q args)) id args, rw (e, f, use_shared_memory) refl)
]
