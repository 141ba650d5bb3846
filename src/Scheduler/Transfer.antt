-- ===== src/Scheduler/Transfer.antt =====
-- How an object gets from one node to another, and which of its I/O threads a node uses:
-- src/scheduler/comm_helper.hpp.
use native.Mathlib.Nat.{mod_self, mod-eq_of_lt}
use spheromone.Prelude.{
  ℕ, suc, ◌+◌, ◌%◌, ◌^◌, ◌<◌, ◌≤◌, ◌≡◌, refl, Bool, true, false, [], ◌∷◌, ◌++◌, Bool-cases, inl,
  inr, arith, nat_eq, ◌==◌, if◌then◌else◌, leb, length, length-append, take-append, drop-append,
}
use spheromone.Text.{Text, text_eq}
use spheromone.HashMap
use spheromone.HashMap.{HashMap}
use spheromone.Common.Result.{ok}
use spheromone.Scheduler.State.{Helper, bytes_to, copy_to_shm_obj}
use spheromone.Scheduler.Helper.{get_io_thread_id, data_request}
use spheromone.Scheduler.Receive.{
  split_message, handle_data_request, handle_data_response, data_resp,
}

-- With at least two and less than 2 ^ 32 I/O threads, the last of which exists, the next one exists, is not the main one if that is excluded, and is
-- remembered.
pub get_io_thread_id_bounds :
    (exclude : Bool) (h : Helper)
    → 1 < h.io_thread_count
    → h.io_thread_count < 2 ^ 32
    → h.io_thread_id < h.io_thread_count
    → ((get_io_thread_id exclude h).0 < h.io_thread_count)
      × ((if exclude then 1 else 0) ≤ (get_io_thread_id exclude h).0)
      × ((get_io_thread_id exclude h).1.io_thread_id ≡ (get_io_thread_id exclude h).0)
unfolding get_io_thread_id
get_io_thread_id_bounds exclude h a b c =
    let word : (h.io_thread_id + 1) % 2 ^ 32 ≡ h.io_thread_id + 1 = omega arith in
    elim (Bool-cases (h.io_thread_id + 1 == h.io_thread_count)) [
      | inl last ↦
          let zero_left : (h.io_thread_id + 1) % h.io_thread_count ≡ 0 =
            ground (arith, mod_self h.io_thread_count) in
          ground (arith, word, zero_left)
      | inr more ↦
          let small : (h.io_thread_id + 1) % h.io_thread_count ≡ h.io_thread_id + 1 =
            mod-eq_of_lt (ground arith) in
          ground (arith, word, small)
    ]

split_back :
    (key rest : Text) (n : ℕ) → n ≡ length key → split_message (n ∷ key ++ rest) ≡ ok (key, rest)
unfolding split_message
split_back key rest n e =
    let enough : leb (length key) (length (key ++ rest)) ≡ true =
      ground (arith, length-append key rest) in
    rw (e, enough, take-append key rest, drop-append key rest) refl

-- A node asks for an object under a name of less than 256 bytes. The node that has it, with a size
-- above 0, answers the address in the request, and from the answer the node that asked gets the
-- name, the size and the value for its shared memory. Shared memory gives as many bytes as the size.
pub handle_data_response-handle_data_request :
    (shm_read : Text → ℕ → Text) (key resp_address : Text) (lens : HashMap Text ℕ) (size : ℕ)
    → length key < 256
    → HashMap.get_or key lens 0 ≡ suc size
    → length (shm_read key (suc size)) ≡ suc size
    → (answer : Text) × (handle_data_request shm_read (data_request key resp_address) lens
        ≡ ok (bytes_to resp_address answer ∷ []))
      × (handle_data_response answer
          ≡ ok (data_resp key (suc size), copy_to_shm_obj key (shm_read key (suc size))))
unfolding handle_data_request handle_data_response data_request
handle_data_response-handle_data_request shm_read key resp_address lens size short here whole =
    let value = shm_read key (suc size) in
    let full : (suc size == 0) ≡ false = ground arith in
    (
      length key ∷ key ++ value,
      rw (split_back key resp_address (length key % 2 ^ 8) (omega arith), here, full) refl,
      rw (split_back key value (length key) refl, whole) refl,
    )
