-- ===== src/BlockPool/Create.antt =====
-- BlockBufferCreate makes an empty buffer that is found under its name.
use mitcbcu.Common.{
  ◌⊎◌, inl, inr, none, ℕ, ◌+◌, ◌-◌, ◌*◌, ◌<◌, ◌≤◌, ◌≡◌, ◌≢◌, arith, List, [], true, false, some,
  ◌==◌, if◌then◌else◌, to_int, pos,
}
use mitcbcu.Names
use mitcbcu.Names.{is_valid, name_taken}
use mitcbcu.Names.Text.{IsName}
use mitcbcu.Names.Save.{IsCleanFor}
use mitcbcu.Pool.{IsSound, registered}
use mitcbcu.Pool.Save.{registered-IsSound, registered_lem}
use mitcbcu.BlockBuffer.{BlockBuffer, fresh_buffer, buffer_size_bytes}
use mitcbcu.BlockBuffer.View.{IsAt, contents}
use mitcbcu.BlockBuffer.Queue.{capacity, room_of}
use mitcbcu.BlockBuffer.Queue.Count.{fresh_buffer_lem, buffer_size_bytes_lem}
use mitcbcu.BlockPool.{BlockPool, Mallocs, create, open_buffer}

-- A buffer with its pointers at some blocks.
abbrev pub IsValid : BlockBuffer → Type 0
IsValid b = (r : ℕ) × (w : ℕ) × IsAt b r w

-- What a call asks for: 1 to 256 items, which are no more blocks than the search loops look at, whose
-- bytes do not wrap in `unsigned int`. And what malloc promises: a structure at an address that is not
-- NULL and not in use, and the bytes that it was asked for in the address space.
pub record IsFit (p : BlockPool) (total_items item_size : ℕ) (m : Mallocs) (h start : ℕ)
    : Type 0 where
  pub some_items : 0 < total_items
  pub at_most : total_items ≤ 256
  pub structure_at : m.structure ≡ some h
  pub bytes_at : m.bytes ≡ some start
  pub not_null : h ≢ 0
  pub unused : is_valid h p.names ≡ false
  pub no_wrap : (if total_items == 1 then 2 else total_items) * (item_size + 4) + 1 < 4294967296
  pub in_space : start + buffer_size_bytes total_items item_size ≤ 4294967296

-- So the blocks are in the address space.
below :
    {p : BlockPool} {total_items item_size : ℕ} {m : Mallocs} {h start : ℕ}
    → IsFit p total_items item_size m h start
    → start + (if total_items == 1 then 2 else total_items) * (item_size + 4) < 4294967296
below {p} {total_items} {item_size} {m} {h} {start} k =
    let e = buffer_size_bytes_lem total_items item_size k.some_items k.no_wrap in
    omega (arith, e, k.in_space)

module _ (p : BlockPool) (total_items item_size : ℕ) (name : List ℕ) (m : Mallocs) {h start : ℕ}
    (k : IsFit p total_items item_size m h start) where
  new : BlockBuffer
  new = fresh_buffer start total_items item_size m.old

  new-IsValid : IsValid new
  unfolding new
  new-IsValid =
      let (v, _, _, _) =
        fresh_buffer_lem start total_items item_size m.old k.some_items k.at_most (below k) in
      (new.total_items - 1, 0, v)

  create-registered :
      create p total_items item_size (some name) m
      ≡ registered p h new (Names.save h name m.node_ok p.names)
  unfolding create new
  create-registered = rw (k.structure_at, k.bytes_at) (ground (arith, k.some_items))

  -- BlockBufferCreate keeps the pool sound, whether or not it succeeds.
  pub create-IsSound :
      IsSound IsValid p → IsSound IsValid (create p total_items item_size (some name) m).0
  create-IsSound s =
      rw create-registered
        (registered-IsSound IsValid p h new name m.node_ok s new-IsValid k.not_null k.unused)

  -- BlockBufferCreate of 1 to 256 items under a new name that fits, when malloc has memory and no
  -- unused node keeps an older byte behind the name: it returns the address of the structure, a lookup
  -- of the name then returns it too, and the buffer there is valid and empty; it takes one block less
  -- than there are items, but one block if there is one item, of the size that was asked for.
  pub block_create_lem :
      m.node_ok ≡ true
      → IsName name
      → IsCleanFor name p.names
      → name_taken name p.names ≡ false
      → let (p', ret) = create p total_items item_size (some name) m in
        (ret ≡ to_int h)
        × (open_buffer p' (some name) ≡ to_int h)
        × (is_valid h p'.names ≡ true)
        × (b : BlockBuffer) × (p'.heap h ≡ some b)
        × IsAt b (b.total_items - 1) 0
        × (contents b (b.total_items - 1) 0 ≡ [])
        × (capacity b ≡ (if total_items == 1 then 1 else total_items - 1))
        × (room_of b ≡ item_size)
  unfolding open_buffer new
  block_create_lem ok v c t =
      let (r, o, v', l) = registered_lem p h new name m.node_ok k.not_null ok v c t in
      let (valid, none_held, n, size) =
        fresh_buffer_lem start total_items item_size m.old k.some_items k.at_most (below k) in
      rw create-registered (r, o, v', new, l, valid, none_held, ground (arith, n), size)

-- What a call of BlockBufferCreate may ask for without any memory being given to it.
abbrev pub IsRefused : ℕ → Mallocs → Type 0
IsRefused total_items m = (total_items ≡ 0) ⊎ ((m.structure ≡ none) ⊎ (m.bytes ≡ none))

-- Without memory, and for 0 items, BlockBufferCreate changes nothing and returns NULL.
pub create_refused :
    (p : BlockPool) (total_items item_size : ℕ) (name : List ℕ) (m : Mallocs)
    → IsRefused total_items m
    → create p total_items item_size (some name) m ≡ (p, pos 0)
unfolding create
create_refused p total_items item_size name m (inl e) = ground (arith, e)
create_refused p total_items item_size name m (inr (inl e)) = ground (arith, e)
create_refused p total_items item_size name m (inr (inr e)) = ground (arith, e)
