-- ===== src/Coordinator/Register/Success.antt =====
-- When a registration does not fail (src/coordinator/app_register_handler.cpp, 20-86).
use spheromone.Prelude.{ℕ, ◌≡◌, refl, List, [], ◌∷◌, All}
use spheromone.Prelude.Int.{ℤ}
use spheromone.Text.{Text}
use spheromone.Common.Result.{ok}
use spheromone.Common.Split.{split}
use spheromone.Common.Stoi.{stoi}
use spheromone.Trigger.Primitive.{Codecs}
use spheromone.Messages.{
  AppRegistration, DataDependency, DependencyType, direct, k_out_of_n, periodic, Sent, empty_update,
}
use spheromone.Coordinator.State.{Coordinator}
use spheromone.Coordinator.Register.{
  bucket_name_of, own, Registering, trigger_dependency, register_dependency, register_all,
  app_register_handler,
}

abbrev pub IsNumber : Text → Type 0
IsNumber s = (i : ℤ) × (stoi s ≡ ok i)

-- The description of a trigger holds the numbers that its type needs.
abbrev pub IsDescribed : DependencyType → Text → Type 0
IsDescribed k_out_of_n description =
    (k n : Text) × (rest : List Text) × (split b',' description ≡ k ∷ n ∷ rest)
    × IsNumber k
    × IsNumber n
IsDescribed periodic description = IsNumber description
IsDescribed other description = Unit

-- A dependency that is not direct has a function to call, and is described.
abbrev pub IsComplete : DependencyType → DataDependency → Type 0
IsComplete direct d = Unit
IsComplete other d =
    ((f : Text) × (others : List Text) × (d.tgt_functions ≡ f ∷ others))
    × IsDescribed other d.description

module _ (codecs : Codecs) where
  trigger_dependency_total :
      (type : DependencyType) (d : DataDependency) (f : Text) (now : ℕ) (reg : Registering)
      → IsDescribed type d.description
      → (result : Registering) × (trigger_dependency codecs type d f now reg ≡ ok result)
  unfolding trigger_dependency
  trigger_dependency_total k_out_of_n d f now reg (k, n, rest, e, (i, p), (j, q)) =
      rw (e, p, q) (_, refl)
  trigger_dependency_total periodic d f now reg (w, p) = rw p (_, refl)
  trigger_dependency_total other d f now reg s = (_, refl)

  register_dependency_total :
      (app : Text) (d : DataDependency) (now : ℕ) (reg : Registering) (type : DependencyType)
      → d.type ≡ type
      → IsComplete type d
      → (result : Registering) × (register_dependency codecs app d now reg ≡ ok result)
  unfolding register_dependency
  register_dependency_total app d now (msg, c) direct e s = rw (e, register_dependency) (_, refl)
  register_dependency_total app d now (msg, c) other e ((f, others, p), s) =
      let (result, q) =
        trigger_dependency_total other d f now (msg, own app (bucket_name_of f) c) s in
      rw (e, register_dependency) (rw p (result, q))

  register_all_total :
      (app : Text) (ds : List DataDependency) (now : ℕ) (reg : Registering)
      → All (λ (d : DataDependency). IsComplete d.type d) ds
      → (result : Registering) × (register_all codecs app ds now reg ≡ ok result)
  unfolding register_all
  register_all_total app [] now reg s = (_, refl)
  register_all_total app (d ∷ ds) now reg s =
      let (first, p) = register_dependency_total app d now reg d.type refl s.0 in
      let (result, q) = register_all_total app ds now first s.1 in (result, rw p q)

  pub app_register_handler_total :
      (r : AppRegistration) (ip : Text) (thread_id now : ℕ) (c : Coordinator)
      → All (λ (d : DataDependency). IsComplete d.type d) r.dependencies
      → (c' : Coordinator) × (sent : List Sent) × (app_register_handler codecs r ip thread_id now c
          ≡ ok (c', sent))
  unfolding app_register_handler
  app_register_handler_total r ip thread_id now c s =
      let start = record empty_update {
        ip = ip;
        thread_id = thread_id;
        app_name = r.app_name;
        functions = r.functions;
      } in
      let (result, p) = register_all_total r.app_name r.dependencies now (start, c) s in
      rw p (_, _, refl)
