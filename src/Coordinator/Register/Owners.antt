-- ===== src/Coordinator/Register/Owners.antt =====
-- The buckets that a registration gives to its application
-- (src/coordinator/app_register_handler.cpp, 20-38).
use spheromone.Prelude.{
  ◌≡◌, ◌↔◌, refl, sym, subst, ◌∙◌, Bool, true, false, some, List, [], ◌∷◌, ◌++◌, arith, nat_eq,
  ◌==◌, ==_cases, ◌||◌, if◌then◌else◌, inl, inr, Bool-cases, ℕ, List-cases,
}
use spheromone.Text.{Text, text_eq}
use spheromone.HashMap
use spheromone.HashMap.{HashMap, find-put, get_or-put}
use spheromone.HashSet
use spheromone.HashSet.{contains-insert}
use spheromone.Common.Result.{ok, Ensures, Ensures->>=, Ensures-after, Ensures-map}
use spheromone.Common.Split.{split}
use spheromone.Common.Stoi.{stoi}
use spheromone.Trigger.Primitive.{Codecs}
use spheromone.Messages.{
  AppRegistration, DataDependency, DependencyType, direct, k_out_of_n, periodic, UpdateCoordMsg,
  Sent,
}
use spheromone.Coordinator.State.{Coordinator}
use spheromone.Coordinator.Bucket.{OwnersAgree}
use spheromone.Coordinator.Register.{
  at, bucket_name_of, own, Registering, trigger_dependency, register_dependency, register_all,
  app_register_handler,
}

abbrev is_direct_type : DependencyType → Bool
is_direct_type direct = true
is_direct_type other = false

-- The buckets of the dependencies that are not direct.
unfoldable pub takes : List DataDependency → List Text
takes [] = []
takes (d ∷ ds) =
    if is_direct_type d.type
    then takes ds
    else elim d.tgt_functions [ [] ↦ takes ds | f ∷ others ↦ bucket_name_of f ∷ takes ds ]

-- The owners after some buckets were given to an application.
pub record Gives (app : Text) (buckets : List Text) (c c' : Coordinator) : Type 0 where
  pub owner :
      (b : Text)
      → HashMap.find b c'.bucket_app
        ≡ (if HashSet.contains b buckets then some app else HashMap.find b c.bucket_app)
  pub own_set :
      (b : Text)
      → HashSet.contains b (HashMap.get_or app c'.app_buckets [])
        ≡ (HashSet.contains b buckets || HashSet.contains b (HashMap.get_or app c.app_buckets []))
  pub other_sets :
      (a : Text)
      → (app == a) ≡ false
      → HashMap.get_or a c'.app_buckets [] ≡ HashMap.get_or a c.app_buckets []

contains-append :
    (xs ys : List Text) (b : Text)
    → HashSet.contains b (xs ++ ys) ≡ (HashSet.contains b xs || HashSet.contains b ys)
unfolding HashSet.contains
contains-append [] ys b = refl
contains-append (x ∷ xs) ys b = ground (arith, contains-append xs ys b)

SameOwners : Coordinator → Coordinator → Type 0
SameOwners c c' = (c'.bucket_app ≡ c.bucket_app) × (c'.app_buckets ≡ c.app_buckets)

Gives-none : (app : Text) (c : Coordinator) → Gives app [] c c
unfolding HashSet.contains
Gives-none app c = record { owner = λ b. refl; own_set = λ b. refl; other_sets = λ a e. refl }

own-Gives : (app bucket : Text) (c : Coordinator) → Gives app (bucket ∷ []) c (own app bucket c)
unfolding own HashSet.contains
own-Gives app bucket c =
    let set = HashSet.insert bucket (HashMap.get_or app c.app_buckets []) in
    record {
      owner = λ b. ground (arith, find-put bucket b app c.bucket_app);
      own_set = λ b. ground (
        arith,
        get_or-put app app set [] c.app_buckets,
        text_eq.beq_iff app app,
        contains-insert bucket b (HashMap.get_or app c.app_buckets []),
      );
      other_sets = λ a e. ground (arith, e, get_or-put app a set [] c.app_buckets);
    }

module _ (codecs : Codecs) where
  abbrev Keeps : Coordinator → Registering → Type 0
  Keeps c result = SameOwners c result.1

  trigger_dependency-Keeps :
      (type : DependencyType) (d : DataDependency) (f : Text) (now : ℕ) (msg : UpdateCoordMsg)
      (c : Coordinator)
      → Ensures (Keeps c) (trigger_dependency codecs type d f now (msg, c))
  unfolding trigger_dependency SameOwners
  trigger_dependency-Keeps k_out_of_n d f now msg c =
      let metadata = split b',' d.description in
      Ensures-after (Keeps c) (at metadata 0) _ (λ first.
        Ensures-after (Keeps c) (stoi first) _ (λ k.
          Ensures-after (Keeps c) (at metadata 1) _
            (λ second. Ensures-after (Keeps c) (stoi second) _ (λ n. (refl, refl)))))
  trigger_dependency-Keeps periodic d f now msg c =
      Ensures-after (Keeps c) (stoi d.description) _ (λ window. (refl, refl))
  trigger_dependency-Keeps other d f now msg c = (refl, refl)

  abbrev GivesAll : Text → List DataDependency → Coordinator → Registering → Type 0
  GivesAll app ds c result = Gives app (takes ds) c result.1

  owned-Gives :
      (app bucket : Text) (c c' : Coordinator)
      → SameOwners (own app bucket c) c'
      → Gives app (bucket ∷ []) c c'
  unfolding SameOwners
  owned-Gives app bucket c c' (p, q) =
      let g = own-Gives app bucket c in
      record {
        owner = λ b. rw p (g.owner b);
        own_set = λ b. rw q (g.own_set b);
        other_sets = λ a e. rw q (g.other_sets a e);
      }

  register_dependency-Gives :
      (app : Text) (d : DataDependency) (now : ℕ) (msg : UpdateCoordMsg) (c : Coordinator)
      (type : DependencyType)
      → d.type ≡ type
      → Ensures (GivesAll app (d ∷ []) c) (register_dependency codecs app d now (msg, c))
  unfolding register_dependency takes
  register_dependency-Gives app d now msg c direct e =
      rw (e, register_dependency, takes) (Gives-none app c)
  register_dependency-Gives app d now msg c other e = elim (List-cases d.tgt_functions) [
    | inl p ↦ rw (e, p, register_dependency) tt
    | inr (f, others, p) ↦
        rw (e, p, register_dependency, takes)
          (Ensures-map (Keeps (own app (bucket_name_of f) c)) _
            (trigger_dependency codecs other d f now (msg, own app (bucket_name_of f) c))
            (λ result. owned-Gives app (bucket_name_of f) c result.1)
            (trigger_dependency-Keeps other d f now msg (own app (bucket_name_of f) c)))
  ]

  Gives-append :
      (app : Text) (xs ys : List Text) (c c1 c2 : Coordinator)
      → Gives app xs c c1
      → Gives app ys c1 c2
      → Gives app (xs ++ ys) c c2
  Gives-append app xs ys c c1 c2 h k = record {
    owner = λ b. ground (arith, h.owner b, k.owner b, contains-append xs ys b);
    own_set = λ b. ground (arith, h.own_set b, k.own_set b, contains-append xs ys b);
    other_sets = λ a e. k.other_sets a e ∙ h.other_sets a e;
  }

  takes-cons :
      (d : DataDependency) (ds : List DataDependency) → takes (d ∷ ds) ≡ takes (d ∷ []) ++ takes ds
  unfolding takes
  takes-cons d ds = elim (Bool-cases (is_direct_type d.type)) [
    | inl e ↦ rw (e, takes) refl
    | inr e ↦ elim (List-cases d.tgt_functions) [
      | inl p ↦ rw (e, p, takes) refl
      | inr (f, others, p) ↦ rw (e, p, takes) refl
    ]
  ]

  register_all-Gives :
      (app : Text) (ds : List DataDependency) (now : ℕ) (msg : UpdateCoordMsg) (c : Coordinator)
      → Ensures (GivesAll app ds c) (register_all codecs app ds now (msg, c))
  unfolding register_all
  register_all-Gives app [] now msg c = unfold takes in Gives-none app c
  register_all-Gives app (d ∷ ds) now msg c =
      Ensures->>= (GivesAll app (d ∷ []) c) (GivesAll app (d ∷ ds) c) _ _
        (register_dependency-Gives app d now msg c d.type refl)
        (λ (first : Registering) h.
          Ensures-map (GivesAll app ds first.1) (GivesAll app (d ∷ ds) c)
            (register_all codecs app ds now first)
            (λ second k.
              subst (λ bs. Gives app bs c second.1) (sym (takes-cons d ds))
                (Gives-append app (takes (d ∷ [])) (takes ds) c first.1 second.1 h k))
            (register_all-Gives app ds now first.0 first.1))

  handler-Gives :
      (r : AppRegistration) (ip : Text) (thread_id now : ℕ) (c c' : Coordinator) (sent : List Sent)
      → app_register_handler codecs r ip thread_id now c ≡ ok (c', sent)
      → Gives r.app_name (takes r.dependencies) c c'
  unfolding app_register_handler
  handler-Gives r ip thread_id now c c' sent e =
      subst
        (Ensures (λ (x : Coordinator × List Sent). Gives r.app_name (takes r.dependencies) c x.0)) e
        (Ensures->>= (GivesAll r.app_name r.dependencies c)
          (λ (x : Coordinator × List Sent). Gives r.app_name (takes r.dependencies) c x.0) _ _
          (register_all-Gives r.app_name r.dependencies now _ c) (λ result h. h))

-- No bucket of the list belongs to another application.
abbrev pub AreFree : Text → List Text → Coordinator → Type 0
AreFree app buckets c =
    (b a : Text)
    → HashSet.contains b buckets ≡ true
    → HashMap.find b c.bucket_app ≡ some a
    → a ≡ app

Gives-OwnersAgree :
    (app : Text) (bs : List Text) (c c' : Coordinator)
    → OwnersAgree c
    → Gives app bs c c'
    → AreFree app bs c
    → OwnersAgree c'
Gives-OwnersAgree app bs c c' agree g free b a = elim (==_cases app a) [
  | inl (q, p) ↦
      subst
        (λ x.
          (HashSet.contains b (HashMap.get_or x c'.app_buckets []) ≡ true)
          ↔ (HashMap.find b c'.bucket_app ≡ some x))
        p
        (
          λ h. ground (arith, h, g.owner b, g.own_set b, (agree b app).0),
          λ h. ground (arith, h, g.owner b, g.own_set b, (agree b app).1),
        )
  | inr (q, p) ↦ (
    λ h. ground (arith, h, p, g.owner b, g.other_sets a q, (agree b a).0, free b a),
    λ h. ground (arith, h, p, g.owner b, g.other_sets a q, (agree b a).1),
  )
]

OwnersAgree-Gives :
    (app : Text) (bs : List Text) (c c' : Coordinator)
    → OwnersAgree c
    → Gives app bs c c'
    → OwnersAgree c'
    → AreFree app bs c
OwnersAgree-Gives app bs c c' agree g after b a taken owned = elim (==_cases app a) [
  | inl (q, p) ↦ sym p
  | inr (q, p) ↦
      let there = (after b a).0 (rw (g.other_sets a q) ((agree b a).1 owned)) in
      ground (arith, there, taken, g.owner b)
]

-- A registration that does not fail gives to its application exactly the buckets of its
-- dependencies that are not direct; all others keep their owners. If the two maps of owners agree
-- before, they agree after it exactly if none of these buckets belonged to another application: the
-- handler does not look at who owns them.
pub app_register_handler-OwnersAgree :
    (codecs : Codecs) (r : AppRegistration) (ip : Text) (thread_id now : ℕ) (c c' : Coordinator)
    (sent : List Sent)
    → OwnersAgree c
    → app_register_handler codecs r ip thread_id now c ≡ ok (c', sent)
    → ((b : Text)
        → HashMap.find b c'.bucket_app ≡ (
            if HashSet.contains b (takes r.dependencies)
            then some r.app_name
            else HashMap.find b c.bucket_app))
      × (OwnersAgree c' ↔ AreFree r.app_name (takes r.dependencies) c)
app_register_handler-OwnersAgree codecs r ip thread_id now c c' sent agree e =
    let g = handler-Gives codecs r ip thread_id now c c' sent e in
    (
      g.owner,
      (
        OwnersAgree-Gives r.app_name (takes r.dependencies) c c' agree g,
        Gives-OwnersAgree r.app_name (takes r.dependencies) c c' agree g,
      ),
    )
