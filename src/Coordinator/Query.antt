-- ===== src/Coordinator/Query.antt =====
-- src/coordinator/query_handler.cpp, with update_address and get_address of
-- src/coordinator/coordinator.cpp: where the objects are.
use spheromone.Prelude.{
  ◌≡◌, refl, ap, Bool, true, false, Option, none, some, List, [], ◌∷◌, map, arith, ◌==◌,
  if◌then◌else◌, All, ◌&&◌, inl, inr, Option-cases, ◌⊎◌,
}
use spheromone.Text.{Text, text_eq, text_beq_iff}
use spheromone.HashMap
use spheromone.HashMap.{has-find, HashMap, find-put, get_or-put}
use spheromone.HashSet
use spheromone.HashSet.{HashSet, contains-insert}
use spheromone.Common.Key.{
  BucketKey, BucketKeyAddress, get_bucket_key_from_addr, get_addr_from_bucket_key,
}
use spheromone.Messages.{KeyQueryRequest, success, bucket_ne, KvsError, Sent, key_query_response}
use spheromone.Coordinator.State.{Coordinator, GetAddressResult, get_address, update_address}

abbrev AddressMap : Type 0
AddressMap = HashMap Text (HashMap Text (HashSet Text))

abbrev Results : Type 0
Results = List (BucketKey × GetAddressResult) × KvsError

-- The lookup of one key; a bucket that is not there is another error than a key that is not.
look_up : BucketKey → AddressMap → GetAddressResult
look_up b m =
    if HashMap.has b.bucket m then get_address b m else record { error = bucket_ne; addr = [] }

abbrev pub is_success : KvsError → Bool
is_success success = true
is_success _ = false

-- The loop stops behind the first key that is not found, whose result it keeps.
query_loop : AddressMap → List BucketKeyAddress → Results
unfolding look_up
query_loop m [] = ([], success)
query_loop m (a ∷ rest) =
    let b = get_bucket_key_from_addr a in
    let result = look_up b m in
    let (rest, error) = query_loop m rest in
    if is_success result.error
    then ((b, result) ∷ rest, error)
    else ((b, result) ∷ [], result.error)

abbrev empty_address : BucketKeyAddress
empty_address = record { bucket = []; key = []; session = []; ips = []; payload = [] }

-- The addresses are given only if every key was found.
abbrev response_address : KvsError → BucketKey × GetAddressResult → BucketKeyAddress
response_address error (b, result) = record (get_addr_from_bucket_key b empty_address) {
  ips = if is_success error then result.addr else [];
}

unfoldable pub query_handler : KeyQueryRequest → Coordinator → List Sent
unfolding query_loop
query_handler r c =
    let (results, error) = query_loop c.key_address r.addresses in
    record {
      to = r.response_address;
      body = key_query_response (record {
        addresses = map (response_address error) results;
        response_id = r.request_id;
        error = error;
      });
    }
    ∷ []

-- The stored addresses of a key, if its bucket and the key are known.
unfoldable pub stored : AddressMap → BucketKeyAddress → Option (HashSet Text)
stored m a = elim (HashMap.find a.bucket m) [ none ↦ none | some keys ↦ HashMap.find a.key keys ]

-- A requested key with its addresses.
abbrev known_answer : BucketKeyAddress → HashSet Text → BucketKeyAddress
known_answer a addr = record {
  bucket = a.bucket;
  key = a.key;
  session = a.session;
  ips = addr;
  payload = [];
}

-- Every requested key with its stored addresses, or none if one of the keys is unknown.
unfoldable pub all_stored : AddressMap → List BucketKeyAddress → Option (List BucketKeyAddress)
all_stored m [] = some []
all_stored m (a ∷ rest) = elim (stored m a) [
  | none ↦ none
  | some addr ↦ elim (all_stored m rest) [
    | none ↦ none
    | some found ↦ some (known_answer a addr ∷ found)
  ]
]

-- What the response says, against the map: `error` is success exactly if every key is known, and
-- then the addresses are those of all requested keys in order.
abbrev Answers : AddressMap → List BucketKeyAddress → Results → Type 0
Answers m rest (results, error) =
    ((found : List BucketKeyAddress) × (all_stored m rest ≡ some found)
      × (error ≡ success)
      × (map (response_address success) results ≡ found))
    ⊎ ((all_stored m rest ≡ none) × (is_success error ≡ false))

module _ (m : AddressMap) (a : BucketKeyAddress) where
  look_up_known :
      (addr : HashSet Text)
      → stored m a ≡ some addr
      → look_up (get_bucket_key_from_addr a) m ≡ record { error = success; addr = addr }
  unfolding look_up stored get_address get_bucket_key_from_addr
  look_up_known addr h = ground (arith, has-find a.bucket m)

  look_up_unknown :
      stored m a ≡ none → is_success (look_up (get_bucket_key_from_addr a) m).error ≡ false
  unfolding look_up stored get_address get_bucket_key_from_addr
  look_up_unknown h = ground (arith, has-find a.bucket m)

  Answers-known :
      (rest : List BucketKeyAddress) (addr : HashSet Text) (r : Results)
      → stored m a ≡ some addr
      → Answers m rest r
      → Answers m
          (a ∷ rest)
          ((get_bucket_key_from_addr a, record { error = success; addr = addr }) ∷ r.0, r.1)
  unfolding all_stored get_bucket_key_from_addr get_addr_from_bucket_key
  Answers-known rest addr r h (inl (found, p, q, e)) = inl (
    known_answer a addr ∷ found,
    rw (h, all_stored) (rw (p) refl),
    q,
    ap (λ t. known_answer a addr ∷ t) e,
  )
  Answers-known rest addr r h (inr (p, q)) = inr (rw (h, all_stored) (rw p refl), q)

query_loop-Answers :
    (m : AddressMap) (keys : List BucketKeyAddress) → Answers m keys (query_loop m keys)
unfolding query_loop all_stored
query_loop-Answers m [] = inl ([], refl, refl, refl)
query_loop-Answers m (a ∷ rest) = elim (Option-cases (stored m a)) [
  | inl unknown ↦
      rw (look_up_unknown m a unknown)
        (inr (rw (unknown, all_stored) refl, look_up_unknown m a unknown))
  | inr (addr, known) ↦
      rw (look_up_known m a addr known)
        (Answers-known m a rest addr (query_loop m rest) known (query_loop-Answers m rest))
]

no_ips :
    (error : KvsError) (results : List (BucketKey × GetAddressResult))
    → is_success error ≡ false
    → All (λ a. a.ips ≡ []) (map (response_address error) results)
no_ips error [] h = tt
no_ips error ((b, r) ∷ rest) h = (rw h refl, no_ips error rest h)

abbrev pub response : KeyQueryRequest → KvsError → List BucketKeyAddress → List Sent
response r error addresses =
    record {
      to = r.response_address;
      body =
          key_query_response
            (record { addresses = addresses; response_id = r.request_id; error = error });
    }
    ∷ []

-- If every requested key is known, the answer is a success with the stored addresses of each, in
-- the order of the request.
pub query_handler-all_stored :
    (r : KeyQueryRequest) (c : Coordinator) (found : List BucketKeyAddress)
    → all_stored c.key_address r.addresses ≡ some found
    → query_handler r c ≡ response r success found
unfolding query_handler
query_handler-all_stored r c found h = elim (query_loop-Answers c.key_address r.addresses) [
  | inl (found', p, q, e) ↦ let eq : found' ≡ found = cc in rw (q, e, eq) refl
  | inr (p, q) ↦ cc
]

-- If some requested key is unknown, the answer is an error, and no key in it has an address.
pub query_handler_unknown :
    (r : KeyQueryRequest) (c : Coordinator)
    → all_stored c.key_address r.addresses ≡ none
    → (error : KvsError) × (keys : List BucketKeyAddress) × (query_handler r c
        ≡ response r error keys)
      × (is_success error ≡ false)
      × All (λ a. a.ips ≡ []) keys
unfolding query_handler
query_handler_unknown r c h = elim (query_loop-Answers c.key_address r.addresses) [
  | inl (found', p, q, e) ↦ cc
  | inr (p, q) ↦
      let (results, error) = query_loop c.key_address r.addresses in
      (error, map (response_address error) results, refl, q, no_ips error results q)
]

find_nil : (k : Text) → HashMap.find {V = HashSet Text} k [] ≡ none
unfolding HashMap.find
find_nil k = refl

-- After an address is recorded for an object, the addresses of the object's key are the old ones
-- with it, and those of every other key are what they were.
pub stored-update_address :
    (b : BucketKey) (addr : Text) (m : AddressMap) (a : BucketKeyAddress)
    → stored (update_address b addr m) a ≡ (
        if (b.bucket == a.bucket) && (b.key == a.key)
        then some (HashSet.insert addr (HashMap.get_or b.key (HashMap.get_or b.bucket m []) []))
        else stored m a)
unfolding stored update_address HashMap.get_or
stored-update_address b addr m a = ground (
  arith,
  find-put b.bucket a.bucket
      (HashMap.put b.key
        (HashSet.insert addr (HashMap.get_or b.key (HashMap.get_or b.bucket m []) []))
        (HashMap.get_or b.bucket m []))
      m,
  find-put b.key a.key
      (HashSet.insert addr (HashMap.get_or b.key (HashMap.get_or b.bucket m []) []))
      (HashMap.get_or b.bucket m []),
  text_beq_iff b.bucket a.bucket,
  find_nil a.key,
)
