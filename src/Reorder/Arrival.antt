-- ===== src/Reorder/Arrival.antt =====
-- In which order the audio packages of 1.0.x/ProdExplUnits/sourcecode/network/udp_recv_fun.cxx reach the
-- buffer that plays them.
use mitcbcu.Common.{
  ℕ, zero, suc, ltb-of_lt, ◌+◌, ◌-◌, ◌<◌, ◌≤◌, ◌≡◌, refl, sym, ap, ◌∙◌, arith, List, [], ◌∷◌, ◌++◌,
  append-nil, append_assoc, length, take_all, length-append, Option, some, ℤ, pos, negsuc, update,
  update_self, ◌>>=◌, Returns, Returns-mono,
}
use mitcbcu.CharBuffer
use mitcbcu.CharBuffer.{CharBuffer}
use mitcbcu.CharBuffer.View.{IsValid, contents, room, used, length-contents}
use mitcbcu.CharBuffer.Write.{write_lem}
use mitcbcu.Reorder.{
  Package, Cache, numbered, counted, push_to_buffer2, push_to_data_buffer2, sort_algorithm2,
  data_recv_and_handle2, size_len, bytes, data_memory, audio,
}
use mitcbcu.Reorder.Entries.{AreSet, has_null-AreSet}

-- No package waits in the cache, which has its memory.
pub record IsIdle (c : Cache) : Type 0 where
  pub set : AreSet c.handles
  pub node_set : 0 < c.p_to_data
  pub idle : c.network_buffer_num ≡ 0

-- DataRecvAndHandle2 for one datagram after the other.
abbrev pub run : Cache → ℕ → List Package → Option Cache
run c sockfd [] = some c
run c sockfd (p ∷ ps) = do r ← data_recv_and_handle2 c (pos sockfd) (some p); run r.0 sockfd ps

-- The bytes that a package says it has, of its array.
abbrev pub payload : Package → List ℕ
payload p = bytes p.data_buffer p.send_len

abbrev pub payloads : List Package → List ℕ
payloads [] = []
payloads (p ∷ ps) = payload p ++ payloads ps

-- Packages that say not more than the size of their arrays.
abbrev pub AllFit : List Package → Type 0
AllFit [] = Unit {0}
AllFit (p ∷ ps) = (p.send_len ≤ size_len) × AllFit ps

bytes-same : (f g : ℕ → ℕ) (n : ℕ) → ((i : ℕ) → i < n → f i ≡ g i) → bytes f n ≡ bytes g n
bytes-same f g zero h = refl
bytes-same f g (suc n) h = rw (h 0 (omega arith)) (
    ap (λ xs. g 0 ∷ xs)
      (bytes-same (λ i. f (suc i)) (λ i. g (suc i)) n λ i l. h (suc i) (omega arith)))

audio-payload : (p : Package) → p.send_len ≤ size_len → audio p ≡ payload p
audio-payload p l =
    bytes-same (data_memory p) p.data_buffer p.send_len
      λ i below. rw (ltb-of_lt i size_len (omega arith)) refl

abbrev pub last_counter : ℕ → List Package → ℕ
last_counter n [] = n
last_counter n (p ∷ ps) = last_counter p.package_counter ps

-- What a package does to a cache that holds none.
abbrev received : Cache → Package → Cache
received c p = push_to_data_buffer2 (record c { nodes = update c.nodes c.p_to_data p }) p

received_lem :
    (c : Cache) (sockfd : ℕ) (p : Package)
    → IsIdle c
    → data_recv_and_handle2 c (pos sockfd) (some p) ≡ some (received c p, pos 0)
unfolding data_recv_and_handle2 sort_algorithm2
received_lem c sockfd p i =
    rw (has_null-AreSet i.set) (ground (arith, i.idle, update_self c.nodes c.p_to_data p))

counted_lem :
    (c : Cache) (r : CharBuffer × ℤ)
    → IsIdle c
    → IsIdle (counted c r) × ((counted c r).app ≡ r.0) × ((counted c r).push_value ≡ c.push_value)
counted_lem c (b, pos n) i =
    (record { set = i.set; node_set = i.node_set; idle = i.idle }, refl, refl)
counted_lem c (b, negsuc n) i =
    (record { set = i.set; node_set = i.node_set; idle = i.idle }, refl, refl)

received-IsIdle :
    (c : Cache) (p : Package)
    → IsIdle c
    → IsIdle (received c p)
      × ((received c p).app ≡ (CharBuffer.write c.app (audio p)).0)
      × ((received c p).push_value ≡ p.package_counter)
unfolding push_to_data_buffer2 push_to_buffer2
received-IsIdle c p i =
    counted_lem (numbered (record c { nodes = update c.nodes c.p_to_data p }) p)
      (CharBuffer.write c.app (audio p))
      (record { set = i.set; node_set = i.node_set; idle = i.idle })

less_room :
    (size size' used used' n : ℕ)
    → size' ≡ size
    → used' ≡ used + n
    → size' - 1 - used' ≡ size - 1 - used - n
less_room size size' used used' n s u = omega arith

used_more :
    (b b' : CharBuffer) (xs : List ℕ)
    → contents b' ≡ contents b ++ xs
    → used b' ≡ used b + length xs
used_more b b' xs e =
    sym (length-contents b')
    ∙ ap length e
    ∙ length-append (contents b) xs
    ∙ ap (λ k. k + length xs) (length-contents b)

-- A write for which there is room.
write_all :
    {b : CharBuffer} (xs : List ℕ)
    → IsValid b
    → length xs ≤ room b
    → let b' = (CharBuffer.write b xs).0 in
      IsValid b' × (contents b' ≡ contents b ++ xs) × (room b' ≡ room b - length xs)
write_all {b} xs v l =
    let (e, _, v', s, _) = write_lem xs v in
    let e' = e ∙ ap (λ t. contents b ++ t) (take_all (room b) xs l) in
    (v', e', less_room _ _ _ _ (length xs) s (used_more b (CharBuffer.write b xs).0 xs e'))

-- From a cache that holds no package, as CacheCreate leaves it, with a valid buffer that has room for
-- all of their bytes, any sequence of packages whose send_len is not above the 1024 bytes of
-- data_buffer ends without a fault: the bytes of each package are in the buffer, of late and repeated
-- ones too, in the order in which they arrived. push_value is the number of the last one, and the
-- cache again holds no package.
pub arrival_lem :
    (c : Cache) (sockfd : ℕ) (ps : List Package)
    → IsIdle c
    → IsValid c.app
    → AllFit ps
    → length (payloads ps) ≤ room c.app
    → Returns
        (λ c'.
          IsIdle c'
          × (contents c'.app ≡ contents c.app ++ payloads ps)
          × (c'.push_value ≡ last_counter c.push_value ps))
        (run c sockfd ps)
arrival_lem c sockfd [] i v fit l = (i, sym (append-nil (contents c.app)), refl)
arrival_lem c sockfd (p ∷ ps) i v fit l =
    let same = audio-payload p fit.0 in
    let (i', a', n) = received-IsIdle c p i in
    let a = a' ∙ ap (λ xs. (CharBuffer.write c.app xs).0) same in
    let (v', e, r) =
      write_all (payload p) v (omega (arith, length-append (payload p) (payloads ps))) in
    rw (received_lem c sockfd p i) (
      Returns-mono _ _ (run (received c p) sockfd ps)
        (arrival_lem (received c p) sockfd ps i' (rw a v') fit.1
          (rw a (rw r (omega (arith, length-append (payload p) (payloads ps))))))
        λ c' (ic, ec, nc). (
          ic,
          ec
              ∙ ap (λ b. contents b ++ payloads ps) a
              ∙ ap (λ t. t ++ payloads ps) e
              ∙ append_assoc (contents c.app) (payload p) (payloads ps),
          nc ∙ ap (λ k. last_counter k ps) n,
        ))
