-- ===== src/Coordinator/Notify/Objects.antt =====
-- What notify_handler (src/coordinator/notify_handler.cpp, 40-62) stores of an object.
use spheromone.Prelude.{
  ◌≤◌, ◌≡◌, refl, true, false, some, List, [], ◌∷◌, arith, if◌then◌else◌, length, Bool-cases,
  Option-cases, inl, inr, take, drop, le→leb,
}
use spheromone.Text.{Text, text_eq, empty, find_char}
use spheromone.HashMap
use spheromone.HashMap.{find-put}
use spheromone.HashSet
use spheromone.Common.Key.{BucketKeyAddress, get_bucket_key_from_addr, shm_key_name, BucketKey}
use spheromone.Coordinator.State.{Coordinator, update_address}
use spheromone.Common.Result.{ok}
use spheromone.Coordinator.Notify.Data.{node_ip, locate, store_object}

node_ip-total : (address : Text) → 6 ≤ length address → (n : Text) × (node_ip address ≡ ok n)
unfolding node_ip
node_ip-total address h = elim (Option-cases (find_char b':' (drop 6 address))) [
  | inl e ↦ (drop 6 address, rw (le→leb 6 (length address) h, e) refl)
  | inr (i, e) ↦ (take i (drop 6 address), rw (le→leb 6 (length address) h, e) refl)
]

-- The coordinator with an address of an object and the node of the address.
abbrev located : BucketKey → Text → Text → Coordinator → Coordinator
located b address node c = record c {
  bucket_node =
      HashMap.put b.bucket (HashSet.insert node (HashMap.get_or b.bucket c.bucket_node []))
        c.bucket_node;
  key_address = update_address b address c.key_address;
}

locate-node_ip :
    (b : BucketKey) (address node : Text) (c : Coordinator)
    → node_ip address ≡ ok node
    → locate b address c ≡ ok (located b address node c)
unfolding locate
locate-node_ip b address node c e = rw (e, locate) refl

module _ (a : BucketKeyAddress) (c : Coordinator) (address : Text) (others : List Text)
    (ips : a.ips ≡ address ∷ others) where
  with_payload :
      (c' : Coordinator)
      → empty a.payload ≡ false
      → locate (get_bucket_key_from_addr a) address c ≡ ok c'
      → store_object a c
        ≡ ok (
            some (record c' {
              key_val =
                  HashMap.put (shm_key_name (get_bucket_key_from_addr a)) a.payload c'.key_val;
            }))
  unfolding store_object
  with_payload c' p e = ground arith

  without_payload :
      (c' : Coordinator)
      → empty a.payload ≡ true
      → HashMap.has a.bucket c.bucket_app ≡ true
      → locate (get_bucket_key_from_addr a) address c ≡ ok c'
      → store_object a c ≡ ok (some c')
  unfolding store_object get_bucket_key_from_addr
  without_payload c' p h e = ground arith

-- An object of a bucket that is there, with an address of at least six bytes: its address is
-- recorded, so that a query finds it, and so is its value, if the message has one.
pub store_object_records :
    (a : BucketKeyAddress) (c : Coordinator) (address : Text) (others : List Text)
    → a.ips ≡ address ∷ others
    → 6 ≤ length address
    → HashMap.has a.bucket c.bucket_app ≡ true
    → (c' : Coordinator) × (store_object a c ≡ ok (some c'))
      × (c'.key_address ≡ update_address (get_bucket_key_from_addr a) address c.key_address)
      × (HashMap.find (shm_key_name (get_bucket_key_from_addr a)) c'.key_val ≡ (
          if empty a.payload
          then HashMap.find (shm_key_name (get_bucket_key_from_addr a)) c.key_val
          else some a.payload))
store_object_records a c address others ips long there =
    let b = get_bucket_key_from_addr a in
    let (n, e) = node_ip-total address long in
    let at_node = locate-node_ip b address n c e in
    elim (Bool-cases (empty a.payload)) [
      | inl h ↦ (
        located b address n c,
        without_payload a c address others ips (located b address n c) h there at_node,
        refl,
        rw h refl,
      )
      | inr h ↦ (
        record c {
          bucket_node = (located b address n c).bucket_node;
          key_address = update_address b address c.key_address;
          key_val = HashMap.put (shm_key_name b) a.payload c.key_val;
        },
        with_payload a c address others ips (located b address n c) h at_node,
        refl,
        rw h (
            ground (
              arith,
              find-put (shm_key_name b) (shm_key_name b) a.payload c.key_val,
              text_eq.beq_iff (shm_key_name b) (shm_key_name b),
            )),
      )
    ]

-- Storing such an object succeeds, and changes neither the triggers nor what is known of the nodes.
pub store_object_total :
    (a : BucketKeyAddress) (c : Coordinator) (address : Text) (others : List Text)
    → a.ips ≡ address ∷ others
    → 6 ≤ length address
    → HashMap.has a.bucket c.bucket_app ≡ true
    → (c' : Coordinator) × (store_object a c ≡ ok (some c'))
      × (c'.bucket_triggers ≡ c.bucket_triggers)
      × (c'.node_status ≡ c.node_status)
store_object_total a c address others ips long there =
    let b = get_bucket_key_from_addr a in
    let (n, e) = node_ip-total address long in
    let at_node = locate-node_ip b address n c e in
    let placed = located b address n c in
    elim (Bool-cases (empty a.payload)) [
      | inl h ↦ (placed, without_payload a c address others ips placed h there at_node, refl, refl)
      | inr h ↦ (
        record placed { key_val = HashMap.put (shm_key_name b) a.payload c.key_val },
        with_payload a c address others ips placed h at_node,
        refl,
        refl,
      )
    ]
