-- ===== src/Executor/Messages.antt =====
-- The messages between the local scheduler (src/scheduler/scheduler.cpp) and its executors
-- (src/executor), written on one side and read on the other.
use spheromone.Prelude.{
  true, false, some, length, append-nil, ℕ, suc, ◌+◌, ◌%◌, ◌^◌, ◌<◌, ◌≡◌, ◌≢◌, refl, ap, ◌∙◌, Bool,
  List, [], ◌∷◌, ◌++◌, append_assoc, arith, nat_eq, if◌then◌else◌, All, All-append,
}
use spheromone.Prelude.Int.{ℤ, pos}
use spheromone.Text.{to_string_cons, to_string-IsDigit, to_string, IsDigit, Text, Lacks, text_eq}
use spheromone.Common.Key.{delimiter}
use spheromone.Common.Split.{split, joined, split-joined, last}
use spheromone.Common.Result.{◌>>=◌, ok}
use spheromone.Common.Stoi.{stoi-to_string}
use spheromone.Scheduler.Dispatch.{with_args, call_message}
use spheromone.Scheduler.Objects.{byte_at, c_string}
use spheromone.Executor.Run.{arguments, Value, chars, shared, object_values, key_values, read_call}

-- No zero and no delimiter: a text that the messages carry unchanged.
abbrev pub IsItem : Text → Type 0
IsItem s = Lacks 0 s × Lacks delimiter s

pub c_string_lem : (s : Text) → Lacks 0 s → c_string s ≡ s
unfolding c_string
c_string_lem [] h = refl
c_string_lem (c ∷ s) h = ground (arith, c_string_lem s h.1)

with_args-joined : (w : Text) (ws : List Text) → w ++ with_args ws ≡ joined delimiter w ws
unfolding with_args joined
with_args-joined w [] = append-nil w
with_args-joined w (v ∷ ws) = ap (λ r. w ++ delimiter ∷ r) (with_args-joined v ws)

Lacks-joined : (w : Text) (ws : List Text) → All IsItem (w ∷ ws) → Lacks 0 (joined delimiter w ws)
unfolding joined
Lacks-joined w [] h = h.0.0
Lacks-joined w (v ∷ ws) h =
    All-append _ w (delimiter ∷ joined delimiter v ws) h.0.0 (refl, Lacks-joined v ws h.1)

All-snd : (ws : List Text) → All IsItem ws → All (Lacks delimiter) ws
All-snd [] h = tt
All-snd (w ∷ ws) h = (h.0.1, All-snd ws h.1)

-- Items with the delimiter between them are read from a message, unless the last is empty.
pub items_read :
    (w : Text) (ws : List Text)
    → All IsItem (w ∷ ws)
    → last w ws ≢ []
    → split delimiter (c_string (joined delimiter w ws)) ≡ w ∷ ws
items_read w ws h n =
    rw (c_string_lem (joined delimiter w ws) (Lacks-joined w ws h))
      (split-joined delimiter w ws (All-snd (w ∷ ws) h) n)

read_call_items :
    (a b c : ℕ) (t session func : Text) (args : List Text)
    → split delimiter (c_string t) ≡ session ∷ func ∷ args
    → read_call (a ∷ b ∷ c ∷ t)
      ≡ ok (record {
        arg_flag = (b + 255) % 2 ^ 8;
        persist_flag = c;
        session_id = session;
        func_name = func;
        items = args;
      })
unfolding read_call byte_at
read_call_items a b c t session func args e = rw (e, read_call) refl

call_items :
    (session func : Text) (args : List Text)
    → session ++ delimiter ∷ func ++ with_args args ≡ joined delimiter session (func ∷ args)
unfolding joined
call_items session func args =
    append_assoc session (delimiter ∷ func) (with_args args)
    ∙ ap (λ r. session ++ delimiter ∷ r) (with_args-joined func args)

-- The executor reads from a call message what the scheduler wrote: a flag of one byte, and session,
-- function and arguments without zeros and delimiters, the last of them not empty.
pub read_call-call_message :
    (flag : ℕ) (persist : Bool) (session func : Text) (args : List Text)
    → flag < 256
    → All IsItem (session ∷ func ∷ args)
    → last func args ≢ []
    → read_call (call_message (pos flag) persist session func args)
      ≡ ok (record {
        arg_flag = flag;
        persist_flag = if persist then 1 else 2;
        session_id = session;
        func_name = func;
        items = args;
      })
unfolding call_message
read_call-call_message flag persist session func args small items n =
    let flag_byte : (suc flag % 2 ^ 8 + 255) % 2 ^ 8 ≡ flag = omega arith in
    rw (call_items session func args) (
      read_call_items 1 (suc flag % 2 ^ 8) (if persist then 1 else 2)
        (joined delimiter session (func ∷ args)) session func args
        (items_read session (func ∷ args) items n)
      ∙ rw flag_byte refl)

-- An object by bucket, key and size: as the scheduler names it in a call, and item by item.
abbrev pub Object : Type 0
Object = Text × Text × ℕ

unfoldable pub named : List Object → List Text
named [] = []
named ((bucket, key, size) ∷ os) = (bucket ++ delimiter ∷ key) ∷ to_string size ∷ named os

unfoldable items_of : List Object → List Text
items_of [] = []
items_of ((bucket, key, size) ∷ os) = bucket ∷ key ∷ to_string size ∷ items_of os

abbrev pub IsObject : Object → Type 0
IsObject (bucket, key, size) = IsItem bucket × IsItem key × (size < 2 ^ 31)

-- The arguments that a function gets for them: each object in shared memory with its size, behind
-- its key if names are asked for.
unfoldable pub values_of : Bool → List Object → List Value
values_of names [] = []
values_of true ((bucket, key, size) ∷ os) =
    chars key ∷ shared (bucket ++ delimiter ∷ key) size ∷ values_of true os
values_of false ((bucket, key, size) ∷ os) =
    shared (bucket ++ delimiter ∷ key) size ∷ values_of false os

pub digit_IsItem : (s : Text) → All IsDigit s → IsItem s
digit_IsItem [] h = (tt, tt)
digit_IsItem (c ∷ s) h =
    let rest = digit_IsItem s h.1 in ((ground arith, rest.0), (ground arith, rest.1))

items-IsItem : (os : List Object) → All IsObject os → All IsItem (items_of os)
unfolding items_of
items-IsItem [] h = tt
items-IsItem ((b, k, size) ∷ os) h =
    let printed = digit_IsItem (to_string size) (to_string-IsDigit size) in
    let rest : All IsItem (to_string size ∷ items_of os) = (printed, items-IsItem os h.1) in
    let more : All IsItem (k ∷ to_string size ∷ items_of os) = (h.0.1, rest) in (h.0.0, more)

with_args-named : (os : List Object) → with_args (named os) ≡ with_args (items_of os)
unfolding named items_of with_args
with_args-named [] = refl
with_args-named ((b, k, size) ∷ os) =
    append_assoc (delimiter ∷ b) (delimiter ∷ k)
      (delimiter ∷ to_string size ++ with_args (named os))
    ∙ ap (λ r. delimiter ∷ b ++ (delimiter ∷ k ++ (delimiter ∷ to_string size ++ r)))
        (with_args-named os)

pub to_string_nonempty : (n : ℕ) → to_string n ≢ []
to_string_nonempty n h = let (c, s, e) = to_string_cons n in cc

last-items : (func : Text) (os : List Object) → func ≢ [] → last func (items_of os) ≢ []
unfolding items_of
last-items func [] n = n
last-items func ((b, k, size) ∷ os) n = last-items (to_string size) os (to_string_nonempty size)

key_values-items :
    (names : Bool) (os : List Object)
    → All IsObject os
    → key_values (if names then 2 else 1) (items_of os) ≡ ok (values_of names os)
unfolding key_values items_of values_of object_values
key_values-items names [] h = refl
key_values-items true ((b, k, size) ∷ os) h =
    rw (stoi-to_string size h.0.2, key_values-items true os h.1) refl
key_values-items false ((b, k, size) ∷ os) h =
    rw (stoi-to_string size h.0.2, key_values-items false os h.1) refl

length-items : (os : List Object) → length (items_of os) % 3 ≡ 0
unfolding items_of
length-items [] = refl
length-items ((b, k, size) ∷ os) = omega (arith, length-items os)

call_message-named :
    (flag : ℤ) (persist : Bool) (session func : Text) (os : List Object)
    → call_message flag persist session func (named os)
      ≡ call_message flag persist session func (items_of os)
unfolding call_message
call_message-named flag persist session func os = rw (with_args-named os) refl

arguments-read :
    (names : Bool) (persist : ℕ) (session func : Text) (os : List Object)
    → All IsObject os
    → arguments (record {
      arg_flag = if names then 2 else 1;
      persist_flag = persist;
      session_id = session;
      func_name = func;
      items = items_of os;
    })
      ≡ ok (some (values_of names os))
unfolding arguments
arguments-read true persist session func os h =
    rw (length-items os, key_values-items true os h) refl
arguments-read false persist session func os h =
    rw (length-items os, key_values-items false os h) refl

-- A function that is called with objects gets each of them in shared memory, by its name with its
-- size: under flag 1 of the scheduler alone, and under flag 2 behind its key. Session, function, buckets and keys hold no zero and no
-- delimiter, the function is not empty, and a size is below 2 ^ 31.
pub arguments-call_message :
    (names persist : Bool) (session func : Text) (os : List Object)
    → IsItem session
    → IsItem func
    → func ≢ []
    → All IsObject os
    → (read_call (call_message (pos (if names then 2 else 1)) persist session func (named os))
        >>= arguments)
      ≡ ok (some (values_of names os))
arguments-call_message names persist session func os s f n h =
    let flag : ℕ = if names then 2 else 1 in
    rw
      (
        call_message-named (pos flag) persist session func os,
        read_call-call_message flag persist session func (items_of os) (grind arith)
            (s, (f, items-IsItem os h)) (last-items func os n),
      )
      (arguments-read names (if persist then 1 else 2) session func os h)
