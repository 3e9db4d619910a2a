-- ===== src/BlockBuffer/Queue/Push.antt =====
-- BlockBufferWrite puts a block into the queue.
use mathlib.Core.Path.{ap₂, fun_ext}
use mitcbcu.Common.{
  Bool, true, false, ℕ, zero, suc, ◌+◌, ◌<◌, ◌≤◌, ◌≡◌, refl, ap, sym, ◌∙◌, arith, List, [], ◌∷◌,
  ◌++◌, length, take, drop, take_all, update, min, pos, if◌then◌else◌, ◌==◌, dec_lt, u32,
}
use mitcbcu.Ring.{next, segment, next-lt, distance-next_right, distance_full}
use mitcbcu.Ring.Segment.{segment_push}
use mitcbcu.BlockBuffer.{Block, BlockBuffer, forward, copy_queue_data, write, err_buffer_full}
use mitcbcu.BlockBuffer.View.{
  IsAt, slot, item, trim, used, contents, length-contents, slot-eq, forward-slot,
}
use mitcbcu.BlockBuffer.Scan.{ptr_is_valid_lem, waiting_lem, several}
use mitcbcu.BlockBuffer.Queue.{cut, push, capacity, room_of}

take-take_append : (k : ℕ) (xs ys : List ℕ) → k ≤ length xs → take k (take k xs ++ ys) ≡ take k xs
take-take_append zero xs ys h = refl
take-take_append (suc k) [] ys h = absurd (omega arith)
take-take_append (suc k) (x ∷ xs) ys h = ap (λ l. x ∷ l) (take-take_append k xs ys (omega arith))

-- The block that prvCopyQueueData writes, as a reader sees it.
written : BlockBuffer → List ℕ → Block
written b src = record {
  len = min (length src) (room_of b);
  bytes =
      take (min (length src) (room_of b)) src
      ++ drop (min (length src) (room_of b)) (b.mem b.pb_writeto).bytes;
}

stored : BlockBuffer → List ℕ → BlockBuffer
stored b src = record b {
  mem = update b.mem b.pb_writeto (written b src);
  items_waiting = u32 (b.items_waiting + 1);
  pb_writeto = forward b b.pb_writeto;
}

copy_queue_data-eq :
    (b : BlockBuffer) (src : List ℕ)
    → copy_queue_data b src ≡ (stored b src, min (length src) (room_of b))
unfolding copy_queue_data stored written
copy_queue_data-eq b src =
    ap
      (λ n. (
        record b {
          mem =
              update b.mem b.pb_writeto
                (record { len = n; bytes = take n src ++ drop n (b.mem b.pb_writeto).bytes });
          items_waiting = u32 (b.items_waiting + 1);
          pb_writeto = forward b b.pb_writeto;
        },
        n,
      ))
      (ground arith)

take-min : (k : ℕ) (xs : List ℕ) → take (min (length xs) k) xs ≡ take k xs
take-min k xs = elim (dec_lt k (length xs)) [
  | yes h ↦ ap (λ j. take j xs) (omega arith)
  | no h ↦ take_all (min (length xs) k) xs (omega arith) ∙ sym (take_all k xs (omega arith))
]

trim-written : (b : BlockBuffer) (src : List ℕ) → trim (written b src) ≡ cut (room_of b) src
unfolding written
trim-written b src =
    ap (λ l. record { len = min (length src) (room_of b); bytes = l })
      (take-take_append (min (length src) (room_of b)) src
          (drop (min (length src) (room_of b)) (b.mem b.pb_writeto).bytes) (omega arith)
        ∙ take-min (room_of b) src)

trim-if : (t : Bool) (x y : Block) → trim (if t then x else y) ≡ (if t then trim x else trim y)
trim-if true x y = refl
trim-if false x y = refl

item-stored :
    (b : BlockBuffer) (r w : ℕ) (src : List ℕ) (i : ℕ)
    → IsAt b r w
    → item (stored b src) i ≡ update (item b) w (cut (room_of b) src) i
unfolding stored slot
item-stored b r w src i v =
    ap (λ t. trim (if t then written b src else b.mem (slot b i)))
      (ap (λ p. slot b i == p) v.write_eq ∙ slot-eq b i w (omega (arith, v.header)))
    ∙ trim-if (i == w) (written b src) (b.mem (slot b i))
    ∙ ap (λ x. if i == w then x else item b i) (trim-written b src)

used-stored :
    (b : BlockBuffer) (r w : ℕ)
    → IsAt b r w
    → used b r w < capacity b
    → used b r (next b.total_items w) ≡ suc (used b r w)
used-stored b r w v h =
    distance-next_right b.total_items (next b.total_items r) w (next-lt b.total_items r v.read_in)
      v.write_in
      (λ e. absurd (
        omega (
          arith,
          distance_full b.total_items (next b.total_items r) w (next-lt b.total_items r v.read_in)
              v.write_in e,
        )))

stored-IsAt :
    (b : BlockBuffer) (r w : ℕ) (src : List ℕ)
    → IsAt b r w
    → used b r w < capacity b
    → IsAt (stored b src) r (next b.total_items w)
unfolding stored slot
stored-IsAt b r w src v h = record {
  two = v.two;
  at_most = v.at_most;
  header = v.header;
  below = v.below;
  tail_eq = v.tail_eq;
  read_eq = v.read_eq;
  write_eq =
      ap (forward b) v.write_eq ∙ forward-slot b w v.tail_eq (omega (arith, v.header)) v.write_in;
  read_in = v.read_in;
  write_in = next-lt b.total_items w v.write_in;
  count_eq = omega (arith, used-stored b r w v h, v.count_eq);
}

contents-stored :
    (b : BlockBuffer) (r w : ℕ) (src : List ℕ)
    → IsAt b r w
    → used b r w < capacity b
    → contents (stored b src) r (next b.total_items w)
      ≡ contents b r w ++ (cut (room_of b) src ∷ [])
unfolding stored
contents-stored b r w src v h =
    ap₂ (λ f k. segment f b.total_items (next b.total_items r) k)
      (fun_ext (λ i. item-stored b r w src i v)) (used-stored b r w v h)
    ∙ segment_push (item b) b.total_items (cut (room_of b) src) (next b.total_items r) w
        (next-lt b.total_items r v.read_in) v.write_in

write-room :
    (b : BlockBuffer) (r w : ℕ) (src : List ℕ)
    → IsAt b r w
    → used b r w < capacity b
    → write b src ≡ (stored b src, pos (min (length src) (room_of b)))
unfolding write
write-room b r w src v h = ground (
  arith,
  copy_queue_data-eq b src,
  ptr_is_valid_lem b r w v,
  waiting_lem b r w v,
  several b r w v,
)

write-no_room :
    (b : BlockBuffer) (r w : ℕ) (src : List ℕ)
    → IsAt b r w
    → capacity b ≤ used b r w
    → write b src ≡ (b, err_buffer_full)
unfolding write
write-no_room b r w src v h =
    ground (arith, ptr_is_valid_lem b r w v, waiting_lem b r w v, several b r w v)

-- BlockBufferWrite on a valid buffer is the push of a queue that holds one block less than the
-- buffer has: the buffer holds the new queue afterwards, the result is the queue's, and the read
-- pointer, the number and the size of the blocks do not change.
pub write_refines :
    (b : BlockBuffer) (r w : ℕ) (src : List ℕ)
    → IsAt b r w
    → let (b', ret) = write b src in
      (w' : ℕ) × IsAt b' r w'
      × ((contents b' r w', ret) ≡ push (capacity b) (room_of b) (contents b r w) src)
      × (b'.total_items ≡ b.total_items)
      × (b'.item_size ≡ b.item_size)
unfolding stored
write_refines b r w src v = elim (dec_lt (used b r w) (capacity b)) [
  | yes h ↦ rw (write-room b r w src v h) (
    next b.total_items w,
    stored-IsAt b r w src v h,
    ground (arith, contents-stored b r w src v h, length-contents b r w),
    refl,
    refl,
  )
  | no h ↦
      rw (write-no_room b r w src v (omega arith))
        (w, v, ground (arith, length-contents b r w), refl, refl)
]
