-- ===== src/Coordinator/Bucket.antt =====
-- src/coordinator/bucket_op_handler.cpp: buckets are created and deleted, and each has one owner.
use spheromone.Prelude.{
  refl, ◌≢◌, ◌≡◌, ◌↔◌, true, none, some, List, [], ◌∷◌, arith, ◌==◌, ◌&&◌, if◌then◌else◌,
}
use spheromone.Text.{Text, text_eq, text_beq_iff}
use spheromone.HashMap
use spheromone.HashMap.{find-put, find-erase, get_or-put, has-find}
use spheromone.HashSet
use spheromone.HashSet.{HashSet, contains-insert, contains-erase}
use spheromone.Messages.{
  BucketOperationRequest, BucketOperationType, create_bucket, delete_bucket, success, bucket_ne,
  bucket_exist, KvsError, Sent, bucket_response,
}
use spheromone.Coordinator.State.{Coordinator}

-- The answer; its operation type is never set, and an operation that sets no error reports success.
abbrev pub answer : BucketOperationRequest → KvsError → List Sent
answer r error =
    record {
      to = r.response_address;
      body = bucket_response (record {
        operation_type = create_bucket;
        bucket_name = r.bucket_name;
        response_id = r.request_id;
        error = error;
      });
    }
    ∷ []

create : BucketOperationRequest → Coordinator → Coordinator × KvsError
create r c = if HashMap.has r.bucket_name c.bucket_app then (c, bucket_exist) else (
  record c {
    app_buckets =
        HashMap.put r.app_name
          (HashSet.insert r.bucket_name (HashMap.get_or r.app_name c.app_buckets [])) c.app_buckets;
    bucket_app = HashMap.put r.bucket_name r.app_name c.bucket_app;
  },
  success,
)

-- app_buckets_map[request.app_name()] is the entry of the asking application, owner or not.
delete : BucketOperationRequest → Coordinator → Coordinator × KvsError
delete r c =
    if HashMap.has r.bucket_name c.bucket_app
    then (
      record c {
        app_buckets =
            HashMap.put r.app_name
              (HashSet.erase r.bucket_name (HashMap.get_or r.app_name c.app_buckets []))
              c.app_buckets;
        bucket_app = HashMap.erase r.bucket_name c.bucket_app;
        bucket_triggers = HashMap.erase r.bucket_name c.bucket_triggers;
      },
      success,
    )
    else (c, bucket_ne)

perform : BucketOperationType → BucketOperationRequest → Coordinator → Coordinator × KvsError
unfolding create delete
perform create_bucket r c = create r c
perform delete_bucket r c = delete r c
perform (BucketOperationType.unknown n) r c = (c, success)

unfoldable pub bucket_op_handler : BucketOperationRequest → Coordinator → Coordinator × List Sent
unfolding perform
bucket_op_handler r c = let (c', error) = perform r.operation_type r c in (c', answer r error)

-- The two maps of owners agree: an application's set has a bucket exactly if the bucket's
-- application is that one.
abbrev pub OwnersAgree : Coordinator → Type 0
OwnersAgree c =
    (b a : Text)
    → (HashSet.contains b (HashMap.get_or a c.app_buckets []) ≡ true)
      ↔ (HashMap.find b c.bucket_app ≡ some a)

-- A deletion is asked for by the owner.
abbrev pub AsksOwn : BucketOperationRequest → Coordinator → Type 0
AsksOwn r c =
    r.operation_type ≡ delete_bucket
    → (a : Text) → HashMap.find r.bucket_name c.bucket_app ≡ some a
    → a ≡ r.app_name

create-OwnersAgree :
    (r : BucketOperationRequest) (c : Coordinator) → OwnersAgree c → OwnersAgree (create r c).0
unfolding create
create-OwnersAgree r c h b a = (
  (λ p. ground (
    arith,
    get_or-put r.app_name a
        (HashSet.insert r.bucket_name (HashMap.get_or r.app_name c.app_buckets [])) []
        c.app_buckets,
    contains-insert r.bucket_name b (HashMap.get_or r.app_name c.app_buckets []),
    find-put r.bucket_name b r.app_name c.bucket_app,
    has-find r.bucket_name c.bucket_app,
    text_beq_iff r.app_name a,
    text_beq_iff r.bucket_name b,
    (h b a).0,
    p,
  )),
  λ p. ground (
    arith,
    get_or-put r.app_name a
        (HashSet.insert r.bucket_name (HashMap.get_or r.app_name c.app_buckets [])) []
        c.app_buckets,
    contains-insert r.bucket_name b (HashMap.get_or r.app_name c.app_buckets []),
    find-put r.bucket_name b r.app_name c.bucket_app,
    has-find r.bucket_name c.bucket_app,
    text_beq_iff r.app_name a,
    text_beq_iff r.bucket_name b,
    (h b a).1,
    p,
  ),
)

delete-OwnersAgree :
    (r : BucketOperationRequest) (c : Coordinator)
    → OwnersAgree c
    → ((a : Text) → HashMap.find r.bucket_name c.bucket_app ≡ some a → a ≡ r.app_name)
    → OwnersAgree (delete r c).0
unfolding delete
delete-OwnersAgree r c h own b a = (
  (λ p. ground (
    arith,
    get_or-put r.app_name a
        (HashSet.erase r.bucket_name (HashMap.get_or r.app_name c.app_buckets [])) [] c.app_buckets,
    contains-erase r.bucket_name b (HashMap.get_or r.app_name c.app_buckets []),
    find-erase r.bucket_name b c.bucket_app,
    has-find r.bucket_name c.bucket_app,
    text_beq_iff r.app_name a,
    text_beq_iff r.bucket_name b,
    (h b a).0,
    own a,
    p,
  )),
  λ p. ground (
    arith,
    get_or-put r.app_name a
        (HashSet.erase r.bucket_name (HashMap.get_or r.app_name c.app_buckets [])) [] c.app_buckets,
    contains-erase r.bucket_name b (HashMap.get_or r.app_name c.app_buckets []),
    find-erase r.bucket_name b c.bucket_app,
    has-find r.bucket_name c.bucket_app,
    text_beq_iff r.app_name a,
    text_beq_iff r.bucket_name b,
    (h b a).1,
    own a,
    p,
  ),
)

-- A bucket is created if it is not there: then it belongs to the application and the answer is a
-- success. If it is there, nothing changes and the answer says so. No other bucket changes.
pub create_bucket_answers :
    (r : BucketOperationRequest) (c : Coordinator)
    → r.operation_type ≡ create_bucket
    → let there = HashMap.has r.bucket_name c.bucket_app in
      let after = bucket_op_handler r c in
      (after.1 ≡ answer r (if there then bucket_exist else success))
      × ((b : Text)
          → HashMap.find b after.0.bucket_app ≡ (
              if there
              then HashMap.find b c.bucket_app
              else if r.bucket_name == b
              then some r.app_name
              else HashMap.find b c.bucket_app))
unfolding bucket_op_handler
create_bucket_answers r c e =
    (ground arith, λ b. ground (arith, find-put r.bucket_name b r.app_name c.bucket_app))

-- After a deletion the bucket is not there, whether it was or not; if it was, its triggers are gone
-- too and the answer is a success, and if not, the answer says so. No other bucket changes.
pub delete_bucket_answers :
    (r : BucketOperationRequest) (c : Coordinator)
    → r.operation_type ≡ delete_bucket
    → let there = HashMap.has r.bucket_name c.bucket_app in
      let after = bucket_op_handler r c in
      (after.1 ≡ answer r (if there then success else bucket_ne))
      × ((b : Text)
          → HashMap.find b after.0.bucket_app
            ≡ (if r.bucket_name == b then none else HashMap.find b c.bucket_app))
      × ((b : Text)
          → HashMap.find b after.0.bucket_triggers
            ≡ (if there && (r.bucket_name == b) then none else HashMap.find b c.bucket_triggers))
unfolding bucket_op_handler
delete_bucket_answers r c e = (
  ground arith,
  (λ b. ground (
    arith,
    find-erase r.bucket_name b c.bucket_app,
    has-find r.bucket_name c.bucket_app,
    text_beq_iff r.bucket_name b,
  )),
  λ b. ground (arith, find-erase r.bucket_name b c.bucket_triggers),
)

perform-OwnersAgree :
    (op : BucketOperationType) (r : BucketOperationRequest) (c : Coordinator)
    → OwnersAgree c
    → (op ≡ delete_bucket
        → (a : Text) → HashMap.find r.bucket_name c.bucket_app ≡ some a
        → a ≡ r.app_name)
    → OwnersAgree (perform op r c).0
unfolding perform
perform-OwnersAgree create_bucket r c h own = create-OwnersAgree r c h
perform-OwnersAgree delete_bucket r c h own = delete-OwnersAgree r c h (own refl)
perform-OwnersAgree (BucketOperationType.unknown n) r c h own = h

-- If the two maps of owners agree, they agree after any bucket operation, provided that a deletion
-- is asked for by the application that owns the bucket.
pub bucket_op_handler-OwnersAgree :
    (r : BucketOperationRequest) (c : Coordinator)
    → OwnersAgree c
    → AsksOwn r c
    → OwnersAgree (bucket_op_handler r c).0
unfolding bucket_op_handler
bucket_op_handler-OwnersAgree r c h own = perform-OwnersAgree r.operation_type r c h own

-- Without that proviso they do not: when an application deletes a bucket of another, the bucket is
-- gone and still stands in its owner's set.
pub delete_of_other_app :
    (r : BucketOperationRequest) (c : Coordinator) (owner : Text)
    → OwnersAgree c
    → r.operation_type ≡ delete_bucket
    → HashMap.find r.bucket_name c.bucket_app ≡ some owner
    → r.app_name ≢ owner
    → let after = (bucket_op_handler r c).0 in
      (HashMap.find r.bucket_name after.bucket_app ≡ none)
      × (HashSet.contains r.bucket_name (HashMap.get_or owner after.app_buckets []) ≡ true)
unfolding bucket_op_handler
delete_of_other_app r c owner h e found other = (
  ground (
    arith,
    find-erase r.bucket_name r.bucket_name c.bucket_app,
    has-find r.bucket_name c.bucket_app,
    text_beq_iff r.bucket_name r.bucket_name,
  ),
  ground (
    arith,
    get_or-put r.app_name owner
        (HashSet.erase r.bucket_name (HashMap.get_or r.app_name c.app_buckets [])) [] c.app_buckets,
    has-find r.bucket_name c.bucket_app,
    text_beq_iff r.app_name owner,
    (h r.bucket_name owner).1,
  ),
)
