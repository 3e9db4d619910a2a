-- ===== src/CharPool/Create.antt =====
-- CharBufferCreate makes an empty buffer that is found under its name.
use mitcbcu.Common.{
  ℕ, ◌+◌, ◌-◌, ◌<◌, ◌≡◌, ◌≢◌, ap, arith, List, [], true, false, some, to_int, ◌⊎◌, inl, inr, none,
  pos,
}
use mitcbcu.Ring.{segment, distance_self}
use mitcbcu.Names
use mitcbcu.Names.{is_valid, name_taken}
use mitcbcu.Names.Text.{IsName}
use mitcbcu.Names.Save.{IsCleanFor}
use mitcbcu.Pool.{IsSound, registered}
use mitcbcu.Pool.Save.{registered-IsSound, registered_lem}
use mitcbcu.CharBuffer.{CharBuffer}
use mitcbcu.CharBuffer.View.{IsValid, contents}
use mitcbcu.CharPool.{CharPool, Mallocs, fresh_buffer, create, open_buffer}

-- What malloc promises: the structure lies at an address that is not NULL and not in use, and the
-- bytes end before the address space does.
pub record MallocsKeep (p : CharPool) (size : ℕ) (m : Mallocs) (h start : ℕ) : Type 0 where
  pub structure_at : m.structure ≡ some h
  pub bytes_at : m.bytes ≡ some start
  pub not_null : h ≢ 0
  pub unused : is_valid h p.names ≡ false
  pub below : start + size < 4294967296

pub fresh_buffer-IsValid :
    (start size : ℕ) (m : Mallocs)
    → 0 < size
    → size < 2147483648
    → start + size < 4294967296
    → IsValid (fresh_buffer start size m) × (contents (fresh_buffer start size m) ≡ [])
unfolding fresh_buffer
fresh_buffer-IsValid start size m h k l = (
  omega arith,
  ap (segment (λ i. m.old_bytes (start + i)) size (start - start))
      (distance_self size (start - start)),
)

create-registered :
    (p : CharPool) (size : ℕ) (name : List ℕ) (m : Mallocs) {h start : ℕ}
    → 0 < size
    → MallocsKeep p size m h start
    → create p size (some name) m
      ≡ registered p h (fresh_buffer start size m) (Names.save h name m.node_ok p.names)
unfolding create
create-registered p size name m pos_size k = rw (k.structure_at, k.bytes_at) (ground arith)

-- CharBufferCreate keeps the pool sound, whether or not it succeeds, when malloc keeps its promise.
pub create-IsSound :
    (p : CharPool) (size : ℕ) (name : List ℕ) (m : Mallocs) {h start : ℕ}
    → IsSound IsValid p
    → 0 < size
    → size < 2147483648
    → MallocsKeep p size m h start
    → IsSound IsValid (create p size (some name) m).0
create-IsSound p size name m {h} {start} s z i k = rw (create-registered p size name m z k) (
    registered-IsSound IsValid p h (fresh_buffer start size m) name m.node_ok s
      (fresh_buffer-IsValid start size m z i k.below).0 k.not_null k.unused)

-- CharBufferCreate of 1 to 2 ^ 31 - 1 bytes under a new name that fits, when malloc has memory and
-- keeps its promise and no unused node keeps an older byte behind the name: it returns the address of the structure, a lookup
-- of the name then returns it too, and the buffer there is valid and empty.
pub create_lem :
    (p : CharPool) (size : ℕ) (name : List ℕ) (m : Mallocs) {h start : ℕ}
    → 0 < size
    → size < 2147483648
    → MallocsKeep p size m h start
    → m.node_ok ≡ true
    → IsName name
    → IsCleanFor name p.names
    → name_taken name p.names ≡ false
    → let (p', ret) = create p size (some name) m in
      (ret ≡ to_int h)
      × (open_buffer p' (some name) ≡ to_int h)
      × (is_valid h p'.names ≡ true)
      × (b : CharBuffer) × (p'.heap h ≡ some b)
      × IsValid b
      × (contents b ≡ [])
unfolding open_buffer
create_lem p size name m {h} {start} z i k ok v c t =
    let (r, o, v', l) =
      registered_lem p h (fresh_buffer start size m) name m.node_ok k.not_null ok v c t in
    let (valid, none_held) = fresh_buffer-IsValid start size m z i k.below in
    rw (create-registered p size name m z k)
      (r, o, v', fresh_buffer start size m, l, valid, none_held)

-- What a call of CharBufferCreate may ask for without any memory being given to it.
abbrev pub IsRefused : ℕ → Mallocs → Type 0
IsRefused size m = (size ≡ 0) ⊎ ((m.structure ≡ none) ⊎ (m.bytes ≡ none))

-- Without memory, and for 0 bytes, CharBufferCreate changes nothing and returns NULL.
pub create_refused :
    (p : CharPool) (size : ℕ) (name : List ℕ) (m : Mallocs)
    → IsRefused size m
    → create p size (some name) m ≡ (p, pos 0)
unfolding create
create_refused p size name m (inl e) = ground (arith, e)
create_refused p size name m (inr (inl e)) = ground (arith, e)
create_refused p size name m (inr (inr e)) = ground (arith, e)
