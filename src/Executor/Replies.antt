-- ===== src/Executor/Replies.antt =====
-- What an executor sends to the local scheduler and what it reads of the answer:
-- src/executor/function_lib.hpp against src/scheduler/scheduler.cpp.
use spheromone.Prelude.{
  suc, suc, true, ltb, ==_refl, take-append, append-nil, ◌==◌, ℕ, ◌+◌, ◌%◌, ◌^◌, ◌<◌, ◌≡◌, ◌≢◌,
  refl, sym, ap, ◌∙◌, Bool, false, some, [], ◌∷◌, ◌++◌, append_assoc, arith, nat_eq, if◌then◌else◌,
  length, All, leb, take,
}
use spheromone.Text.{to_string-IsDigit, Text, to_string, text_eq}
use spheromone.Common.Key.{delimiter}
use spheromone.Common.Split.{split, joined}
use spheromone.Common.Result.{ok}
use spheromone.HashMap
use spheromone.HashSet
use spheromone.Common.Stoi.{stoi-to_string}
use spheromone.Scheduler.State.{to_executor, Config, Node}
use spheromone.Scheduler.Dispatch.{send_to_executer}
use spheromone.Scheduler.Requests.{handle_message, get_request, response, executor_of}
use spheromone.Scheduler.Objects.{byte_at, c_string, read_object}
use spheromone.Executor.UserLibrary.{
  next_request_id, requested_name, get_object_message, get_object_answer, UserLibrary, EpheObject,
  get_object_answer, send_object_message, msg_data_packing_threshold,
}
use spheromone.Executor.Messages.{digit_IsItem, c_string_lem, IsItem, items_read}

read_object_items :
    (a b c d : ℕ) (t session src tgt bucket key content : Text)
    → split delimiter (c_string t) ≡ session ∷ src ∷ tgt ∷ bucket ∷ key ∷ content ∷ []
    → read_object (a ∷ b ∷ c ∷ d ∷ t)
      ≡ some (record {
        session_id = session;
        src_function = src;
        tgt_function = tgt;
        bucket = bucket;
        session_key = key;
        content = content;
      })
unfolding read_object
read_object_items a b c d t session src tgt bucket key content e = rw (e, read_object) refl

object_items :
    (session src tgt bucket key content : Text)
    → session
        ++ delimiter ∷ src
        ++ delimiter ∷ tgt
        ++ delimiter ∷ (bucket ++ delimiter ∷ key)
        ++ delimiter ∷ content
      ≡ joined delimiter session (src ∷ tgt ∷ bucket ∷ key ∷ content ∷ [])
unfolding joined
object_items session src tgt bucket key content = simp (append_assoc)

-- What send_object sends for the object: its value, or its size if it is large.
abbrev pub content_of : (Text → ℕ → Text) → EpheObject → Text
content_of shm_read o =
    if leb o.size msg_data_packing_threshold then shm_read o.obj_name o.size else to_string o.size

-- The scheduler reads from the message of send_object the session, the two functions, the bucket and
-- key of the object's name, and its value, or its size above 1024 bytes, if none of them holds a
-- zero or a delimiter and the last is not empty. Its type tells an ephemeral object from an output
-- for the store or for the client, and its flag a value from a size.
pub read_object-send_object_message :
    (shm_read : Text → ℕ → Text) (o : EpheObject) (output : Bool) (u : UserLibrary)
    (bucket key : Text)
    → o.obj_name ≡ bucket ++ delimiter ∷ key
    → All IsItem
        (u.session_id ∷ u.function ∷ o.target_func ∷ bucket ∷ key ∷ content_of shm_read o ∷ [])
    → content_of shm_read o ≢ []
    → (read_object (send_object_message shm_read o output u).0
        ≡ some (record {
          session_id = u.session_id;
          src_function = u.function;
          tgt_function = o.target_func;
          bucket = bucket;
          session_key = key;
          content = content_of shm_read o;
        }))
      × (byte_at 1 (send_object_message shm_read o output u).0
          ≡ (if output then if u.persist_flag == 1 then 3 else 4 else 2))
      × (byte_at 3 (send_object_message shm_read o output u).0
          ≡ (if leb o.size msg_data_packing_threshold then 1 else 2))
unfolding send_object_message byte_at
read_object-send_object_message shm_read o output u bucket key e items n =
    let content = content_of shm_read o in
    let tail =
      ap
        (λ name.
          u.session_id
          ++ delimiter ∷ u.function
          ++ delimiter ∷ o.target_func
          ++ delimiter ∷ name
          ++ delimiter ∷ content)
        e
      ∙ object_items u.session_id u.function o.target_func bucket key content in
    let read =
      ap (λ t. split delimiter (c_string t)) tail
      ∙ items_read u.session_id (u.function ∷ o.target_func ∷ bucket ∷ key ∷ content ∷ []) items
          n in
    (read_object_items _ _ _ _ _ _ _ _ _ _ _ read, refl, refl)

get_request_found :
    (chan req_id size : ℕ) (name : Text) (n : Node)
    → length name < 256
    → HashMap.find name n.key_len ≡ some size
    → get_request (chan ∷ 1 ∷ 1 ∷ req_id ∷ length name % 2 ^ 8 ∷ name) n
      ≡ ok (n, send_to_executer ((chan + 255) % 2 ^ 8) (response req_id (to_string size)) n)
unfolding get_request byte_at executor_of
get_request_found chan req_id size name n small found =
    let key : take (length name) name ≡ name =
      ap (take (length name)) (sym (append-nil name)) ∙ take-append name [] in
    let byte : length name % 2 ^ 8 ≡ length name = omega arith in
    let whole : ltb (length name) (length name) ≡ false = ground arith in
    rw (byte, get_request, key, found, whole) refl

answer_read :
    (name : Text) (req_id size : ℕ)
    → size < 2 ^ 31
    → get_object_answer name req_id (some (response req_id (to_string size)))
      ≡ ok (some (record { obj_name = name; size = size; target_func = [] }))
unfolding get_object_answer response byte_at
answer_read name req_id size small =
    let digits : c_string (to_string size) ≡ to_string size =
      c_string_lem (to_string size) (digit_IsItem (to_string size) (to_string-IsDigit size)).0 in
    rw (==_refl req_id, digits, stoi-to_string size small) refl

-- get_object for an object that is on the node, whose name has less than 256 bytes and whose size is
-- below 2 ^ 31, by an executor below 255 that has a channel: the scheduler changes nothing and answers the executor that asked, and from the
-- answer the library gets the object's name and size.
pub get_object_served :
    (shm_read : Text → ℕ → Text) (rand_r : ℕ → ℕ × ℕ) (config : Config) (u : UserLibrary)
    (id size now : ℕ) (bucket key : Text) (n : Node)
    → u.chan_id ≡ suc id
    → id < 255
    → length (requested_name bucket key true u) < 256
    → HashMap.find (requested_name bucket key true u) n.key_len ≡ some size
    → size < 2 ^ 31
    → HashSet.contains id n.executor_chans ≡ true
    → (handle_message shm_read rand_r config (get_object_message bucket key true u).0 now n
        ≡ ok (n, to_executor id (response (next_request_id u).0 (to_string size)) ∷ []))
      × (get_object_answer
            (requested_name bucket key true u)
            (next_request_id u).0
            (some (response (next_request_id u).0 (to_string size)))
          ≡ ok (
              some (record {
                obj_name = requested_name bucket key true u;
                size = size;
                target_func = [];
              })))
unfolding handle_message get_object_message byte_at
get_object_served shm_read rand_r config u id size now bucket key n chan few short found small
      there =
    let back : (u.chan_id + 255) % 2 ^ 8 ≡ id = omega arith in
    let name = requested_name bucket key true u in
    (
      get_request_found u.chan_id (next_request_id u).0 size name n short found
          ∙ rw (back, there) refl,
      answer_read name (next_request_id u).0 size small,
    )
