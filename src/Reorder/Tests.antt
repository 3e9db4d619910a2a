-- ===== src/Reorder/Tests.antt =====
-- Packages on the sorting cache of 1.0.x/ProdExplUnits/sourcecode/network/udp_recv_fun.cxx.
use mitcbcu.Common.{
  ℕ, if◌then◌else◌, ◌≡◌, ◌≤◌, refl, arith, [], ◌∷◌, some, none, pos, Returns, update, false,
}
use mitcbcu.CharBuffer.{CharBuffer}
use mitcbcu.CharBuffer.View.{contents}
use mitcbcu.Reorder.{Package, Cache, cache_create, add_and_sort_fun2, array_move_sort2}
use mitcbcu.Reorder.Entries.{are_set}
use mitcbcu.Reorder.Arrival.{IsIdle, run, arrival_lem}
use mitcbcu.Reorder.Append.{appended, is_taken, add_and_sort_fun2_lem}
use mitcbcu.Reorder.Safe.{recv, force_clear, force_push, calls, calls_lem}
use mitcbcu.Reorder.Bounds.{IsReady}

-- A package with a number, which is also its two bytes.
abbrev numbered_package : ℕ → Package
numbered_package n = record {
  package_counter = n;
  send_len = 2;
  data_buffer = λ _. n;
  behind = λ _. 0;
}

abbrev app : CharBuffer
app = record {
  pb_head = 100;
  pb_tail = 108;
  pb_writeto = 100;
  pb_readfrom = 100;
  buffer_size = 8;
  clear_count = 0;
  mem = λ _. 0;
}

abbrev created : Cache
created = cache_create 1 (λ _. numbered_package 0) app

created-IsIdle : IsIdle created
unfolding cache_create
created-IsIdle = record {
  set = are_set (omega arith) (omega arith) (omega arith) (omega arith) (omega arith) (omega arith);
  node_set = omega arith;
  idle = refl;
}

-- The numbers 7, 5 and 5 are played in this order.
arrival_lem_example :
    Returns
      (λ c'. IsIdle c' × (contents c'.app ≡ 7 ∷ 7 ∷ 5 ∷ 5 ∷ 5 ∷ 5 ∷ []) × (c'.push_value ≡ 5))
      (run created 3 (numbered_package 7 ∷ numbered_package 5 ∷ numbered_package 5 ∷ []))
unfolding cache_create
arrival_lem_example =
    arrival_lem created 3 (numbered_package 7 ∷ numbered_package 5 ∷ numbered_package 5 ∷ [])
      created-IsIdle (ground arith) (omega arith, (omega arith, (omega arith, tt))) (omega arith)

-- The packages 52 and 54 wait, 51 is expected and 53 comes.
abbrev waiting : Cache
waiting = record {
  handles = 1 ∷ 2 ∷ 3 ∷ 4 ∷ 5 ∷ 6 ∷ 0 ∷ 0 ∷ [];
  p_to_data = 3;
  nodes =
      update (update (λ _. numbered_package 53) 1 (numbered_package 52)) 2 (numbered_package 54);
  network_buffer_num = 2;
  desired_value = 51;
  push_value = 50;
  clean_force_len = false;
  app = app;
  byte_into_buffer = 0;
  buffer_over_times = 0;
}

add_and_sort_fun2_lem_example :
    add_and_sort_fun2 waiting ≡ (if is_taken waiting 53 54 then appended waiting else some waiting)
add_and_sort_fun2_lem_example =
    add_and_sort_fun2_lem waiting (numbered_package 53) (numbered_package 54) refl refl
      (omega arith) (omega arith)

-- So 53 waits behind 54.
added : add_and_sort_fun2 waiting ≡ some (record waiting { p_to_data = 4; network_buffer_num = 3 })
unfolding add_and_sort_fun2 array_move_sort2
added = refl

calls_lem_example :
    Returns
      (λ c'. IsReady c' × (c'.network_buffer_num ≤ 3))
      (calls waiting (
        recv (pos 3) (some (numbered_package 51))
        ∷ recv (pos 3) none
        ∷ force_push
        ∷ recv (pos 3) (some (numbered_package 53))
        ∷ force_clear
        ∷ []))
calls_lem_example =
    calls_lem waiting
      (recv (pos 3) (some (numbered_package 51))
        ∷ recv (pos 3) none
        ∷ force_push
        ∷ recv (pos 3) (some (numbered_package 53))
        ∷ force_clear
        ∷ [])
      (record {
        set =
            are_set (omega arith) (omega arith) (omega arith) (omega arith) (omega arith)
              (omega arith);
        node_set = omega arith;
      })
      (omega arith)
