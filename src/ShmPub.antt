-- ===== src/ShmPub.antt =====
-- src/shm_pub.h and src/shm_pub.cpp: the shared-memory region that C# plugins read.
-- `none` is a null `s_ShmView`; `msync` has no effect on what the region holds.
pub mod View
pub mod Layout
pub mod Refine
use cs2_bot_identity.Base.{
  ℕ, zero, suc, ◌+◌, ◌-◌, ◌*◌, ◌%◌, ◌^◌, ◌==◌, leb, if◌then◌else◌, Bool, Option, none, some, List,
  [], ◌∷◌, Bytes, ℤ, pos, negsuc, take,
}
use mathlib.Core.Option
use cs2_bot_identity.Memory.{Memory, store, read_le, write_le}

abbrev pub shm_max_slots : ℕ
shm_max_slots = 64

abbrev pub shm_name_len : ℕ
shm_name_len = 32

abbrev pub crosshair_len : ℕ
crosshair_len = 64

abbrev pub shm_total_size : ℕ
shm_total_size = 1_064_960

abbrev pub shm_magic : ℕ
shm_magic = 0x44494842

abbrev pub shm_version : ℕ
shm_version = 1

-- `SlotStatePtr() + slot` and the other `…Ptr(slot)`, as offsets from `s_ShmView`.
abbrev pub slot_state_ptr : ℕ → ℕ
slot_state_ptr slot = 16 + slot

abbrev pub sid_ptr : ℕ → ℕ
sid_ptr slot = 80 + slot * 8

abbrev pub name_ptr : ℕ → ℕ
name_ptr slot = 592 + slot * shm_name_len

abbrev pub ping_ptr : ℕ → ℕ
ping_ptr slot = 5720 + slot * 4

abbrev pub crosshair_ptr : ℕ → ℕ
crosshair_ptr slot = 5976 + slot * crosshair_len

abbrev pub flair_ptr : ℕ → ℕ
flair_ptr slot = 10400 + slot * 4

abbrev pub incarnation_ptr : ℕ → ℕ
incarnation_ptr slot = 13216 + slot * 8

-- `std::memset(m + a, 0, n)`.
pub fill_zero : ℕ → Memory → ℕ → Memory
fill_zero zero m a = m
fill_zero (suc n) m a = fill_zero n (store m a 0) (a + 1)

-- The bytes of `std::strncpy` that come from the text; it stands behind a `memset` of the field.
pub copy_text : Bytes → Memory → ℕ → Memory
copy_text [] m a = m
copy_text (c ∷ cs) m a = copy_text cs (store m a c) (a + 1)

-- The bit pattern of an `int`.
abbrev pub of_int32 : ℤ → ℕ
of_int32 (pos n) = n
of_int32 (negsuc n) = 2 ^ 32 - 1 - n

-- The region as `InitSharedMemory` leaves it when every system call succeeds; `map` is what the
-- fresh mapping holds before the `memset`.
pub init_shared_memory : Option Memory → Memory → Option Memory
unfolding fill_zero
init_shared_memory (some view) fresh = some view
init_shared_memory none fresh = some (
    write_le 4
      (write_le 4 (write_le 4 (fill_zero shm_total_size fresh 0) 0 shm_magic) 4 shm_version) 8
      shm_max_slots)

-- The guard of every `Publish…`: the view is there and the slot is in range.
abbrev on_slot : Option Memory → ℤ → (ℕ → Memory → Memory) → Option Memory
on_slot view (negsuc n) write = view
on_slot view (pos n) write = if leb shm_max_slots n then view else Option.map (write n) view

-- `if (name)`: a null pointer leaves the field.
write_name : Option Bytes → ℕ → Memory → Memory
write_name none n m = m
write_name (some name) n m =
    copy_text (take (shm_name_len - 1) name) (fill_zero shm_name_len m (name_ptr n)) (name_ptr n)

pub publish_adopt : Option Memory → ℤ → ℕ → Option Bytes → Option Memory
unfolding write_name
publish_adopt view slot steam_id name =
    on_slot view slot
      λ n m. write_name name n (write_le 8 (store m (slot_state_ptr n) 1) (sid_ptr n) steam_id)

pub publish_release : Option Memory → ℤ → Option Memory
publish_release view slot = on_slot view slot λ n m.
    fill_zero shm_name_len (write_le 8 (store m (slot_state_ptr n) 0) (sid_ptr n) 0) (name_ptr n)

pub publish_ping : Option Memory → ℤ → ℤ → Option Memory
publish_ping view slot ping = on_slot view slot λ n m. write_le 4 m (ping_ptr n) (of_int32 ping)

-- `if (!code) code = "";`
pub publish_crosshair : Option Memory → ℤ → Option Bytes → Option Memory
publish_crosshair view slot code = on_slot view slot λ n m.
    copy_text (take (crosshair_len - 1) (Option.get_or code []))
      (fill_zero crosshair_len m (crosshair_ptr n)) (crosshair_ptr n)

pub publish_scoreboard_flair : Option Memory → ℤ → ℕ → Option Memory
publish_scoreboard_flair view slot item_def_index =
    on_slot view slot λ n m. write_le 4 m (flair_ptr n) item_def_index

pub bump_incarnation : Option Memory → ℤ → Option Memory
bump_incarnation view slot =
    on_slot view slot
      λ n m. write_le 8 m (incarnation_ptr n) ((read_le 8 m (incarnation_ptr n) + 1) % 2 ^ 64)
