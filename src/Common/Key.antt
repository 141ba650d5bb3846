-- ===== src/Common/Key.antt =====
-- The names of data objects: BucketKey and its conversions (common/include/common.hpp, 26-107).
-- An object's name in shared memory is its bucket, the delimiter, its key and its session.
use spheromone.Prelude.{
  Bool-cases, inl, inr, drop-append_cons, ℕ, suc, ◌-◌, ◌≡◌, refl, ap, ◌∙◌, ◌≢◌, none, some, List,
  [], ◌∷◌, ◌++◌, arith, nat_eq, if◌then◌else◌, length, length-append, take, drop, take-append,
  drop-append, ltb, take-append-drop,
}
use spheromone.Text.{Text, Lacks, find_char, find_char-append}

pub record BucketKey : Type 0 where
  pub bucket : Text
  pub key : Text
  pub session : Text

-- kDelimiter
abbrev pub delimiter : ℕ
delimiter = b'|'

unfoldable pub get_key_session_name : Text → Text → Text
get_key_session_name key session = key ++ session

unfoldable pub get_local_object_name : Text → Text → Text → Text
unfolding get_key_session_name
get_local_object_name bucket key session = bucket ++ delimiter ∷ get_key_session_name key session

unfoldable pub shm_key_name : BucketKey → Text
unfolding get_local_object_name
shm_key_name k = get_local_object_name k.bucket k.key k.session

-- BucketKey(bucket, session_key): the session is the last 16 bytes. A text of at most 16 bytes
-- leaves the key and the session empty.
unfoldable pub of_session_key : Text → Text → BucketKey
of_session_key bucket session_key =
    let size = length session_key in
    if ltb 16 size
    then record {
      bucket = bucket;
      key = take (size - 16) session_key;
      session = drop (size - 16) session_key;
    }
    else record { bucket = bucket; key = []; session = [] }

-- With no delimiter, `find` gives npos: both substrings are the whole text.
unfoldable pub get_bucket_key_from_string : Text → BucketKey
unfolding of_session_key
get_bucket_key_from_string name = elim (find_char delimiter name) [
  | none ↦ of_session_key name name
  | some i ↦ of_session_key (take i name) (drop (suc i) name)
]

-- common/proto: BucketKeyTuple and BucketKeyAddress.
pub record BucketKeyTuple : Type 0 where
  pub bucket : Text
  pub key : Text
  pub session : Text
  pub payload : Text

pub record BucketKeyAddress : Type 0 where
  pub bucket : Text
  pub key : Text
  pub session : Text
  pub ips : List Text
  pub payload : Text

unfoldable pub get_tuple_from_bucket_key : BucketKey → BucketKeyTuple → BucketKeyTuple
get_tuple_from_bucket_key k t = record t { bucket = k.bucket; key = k.key; session = k.session }

unfoldable pub get_bucket_key_from_tuple : BucketKeyTuple → BucketKey
get_bucket_key_from_tuple t = record { bucket = t.bucket; key = t.key; session = t.session }

unfoldable pub get_addr_from_bucket_key : BucketKey → BucketKeyAddress → BucketKeyAddress
get_addr_from_bucket_key k a = record a { bucket = k.bucket; key = k.key; session = k.session }

unfoldable pub get_bucket_key_from_addr : BucketKeyAddress → BucketKey
get_bucket_key_from_addr a = record { bucket = a.bucket; key = a.key; session = a.session }

-- Writing a key into a message and reading it back gives the key, whatever the message held; the
-- other fields stay.
pub bucket_key-messages :
    (k : BucketKey) (t : BucketKeyTuple) (a : BucketKeyAddress)
    → (get_bucket_key_from_tuple (get_tuple_from_bucket_key k t) ≡ k)
      × (get_bucket_key_from_addr (get_addr_from_bucket_key k a) ≡ k)
      × ((get_addr_from_bucket_key k a).ips ≡ a.ips)
unfolding get_bucket_key_from_tuple get_tuple_from_bucket_key get_bucket_key_from_addr
    get_addr_from_bucket_key
bucket_key-messages k t a = (refl, refl, refl)

of_session_key-append :
    (b k s : Text)
    → k ≢ []
    → length s ≡ 16
    → of_session_key b (k ++ s) ≡ record { bucket = b; key = k; session = s }
unfolding of_session_key
of_session_key-append b [] s n e = absurd (n refl)
of_session_key-append b (c ∷ k) s n e =
    rw
      (
        (let h : length (c ∷ k ++ s) - 16 ≡ length (c ∷ k) = omega (arith, length-append k s) in h),
        take-append (c ∷ k) s,
        drop-append (c ∷ k) s,
      )
      (ground (arith, length-append k s))

-- Reading a name splits it at the first delimiter.
name-parts :
    (b r : Text)
    → Lacks delimiter b
    → get_bucket_key_from_string (b ++ delimiter ∷ r) ≡ of_session_key b r
unfolding get_bucket_key_from_string
name-parts b r h =
    rw (find_char-append delimiter b r h, get_bucket_key_from_string)
      (rw (take-append b (delimiter ∷ r), drop-append_cons b delimiter r) refl)

-- The name of an object with a key and a session of 16 bytes, in a bucket without the delimiter, is
-- read back as that object.
pub get_bucket_key_from_string-shm_key_name :
    (k : BucketKey)
    → Lacks delimiter k.bucket
    → k.key ≢ []
    → length k.session ≡ 16
    → get_bucket_key_from_string (shm_key_name k) ≡ k
unfolding shm_key_name
get_bucket_key_from_string-shm_key_name k h n e =
    name-parts k.bucket (k.key ++ k.session) h ∙ of_session_key-append k.bucket k.key k.session n e

-- The object that a name with a delimiter is read as has that name, if more than 16 bytes follow the
-- first delimiter; otherwise its name ends there, since it has neither key nor session.
pub shm_key_name-get_bucket_key_from_string :
    (b r : Text)
    → Lacks delimiter b
    → shm_key_name (get_bucket_key_from_string (b ++ delimiter ∷ r))
      ≡ (if ltb 16 (length r) then b ++ delimiter ∷ r else b ++ delimiter ∷ [])
shm_key_name-get_bucket_key_from_string b r h = elim (Bool-cases (ltb 16 (length r))) [
  | inl long ↦ rw (name-parts b r h) (
      unfold shm_key_name of_session_key in
      rw long (ap (λ t. b ++ delimiter ∷ t) (take-append-drop (length r - 16) r)))
  | inr short ↦ rw (name-parts b r h) (unfold shm_key_name of_session_key in rw short refl)
]
