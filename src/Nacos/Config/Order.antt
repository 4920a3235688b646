-- ===== src/Nacos/Config/Order.antt =====
-- The order in which `LoadConfig` of agent/registration/nacos/config.go runs over its two maps.
use mathlib.Core.List.{Permᴰ}
use mathlib.Core.List.Permᴰ
use nekiro_sdk_go.Prelude.{Bytes, List, ◌∷◌, ◌≡◌, subst, subst₂, arith, codes, ◌↔◌, Option, some}
use nekiro_sdk_go.Errors.{GoError, Result, ok, >>=-ok}
use nekiro_sdk_go.Nacos.Values.{Lookup, SystemLibrary, required}
use nekiro_sdk_go.Nacos.Config.{Config, ReleaseTarget}
use nekiro_sdk_go.Nacos.Config.Load.{
  Orders, load_origin, load_nacos, load_mode, load_from, load_config, started,
}
use nekiro_sdk_go.Nacos.Config.Fields.{
  name_of, TargetField, assign_target, TupleField, assign_tuple, read_fields, read_targets,
  read_tuples,
}

assign_target-commute :
    (f g : TargetField) (v w : Bytes) (c : Config)
    → (f ≡ g → v ≡ w)
    → assign_target g w (assign_target f v c) ≡ assign_target f v (assign_target g w c)
assign_target-commute f g v w c same = ground arith

assign_tuple-commute :
    (f g : TupleField) (v w : Bytes) (c : Config)
    → (f ≡ g → v ≡ w)
    → assign_tuple g w (assign_tuple f v c) ≡ assign_tuple f v (assign_tuple g w c)
assign_tuple-commute f g v w c same = ground arith

module _ {F : Type 0} (read : F → Result Bytes) (assign : F → Bytes → Config → Config)
    (commute : (f g : F) (v w : Bytes) (c : Config)
      → (f ≡ g → v ≡ w)
      → assign g w (assign f v c) ≡ assign f v (assign g w c)) where
  read_fields-cons :
      (field : F) (rest : List F) (v : Bytes) (c d : Config)
      → read field ≡ ok v
      → read_fields read assign rest (assign field v c) ≡ ok d
      → read_fields read assign (field ∷ rest) c ≡ ok d
  unfolding read_fields
  read_fields-cons field rest v c d e h = rw (e, h)

  read_fields-swap :
      (a b : F) (l : List F) (c d : Config)
      → read_fields read assign (a ∷ b ∷ l) c ≡ ok d
      → read_fields read assign (b ∷ a ∷ l) c ≡ ok d
  unfolding read_fields
  read_fields-swap a b l c d h =
      let (v, e, h1) = >>=-ok (read a) _ _ h in
      let (w, f, h2) = >>=-ok (read b) _ _ h1 in
      let swapped = commute a b v w c (λ same. cc) in
      read_fields-cons b (a ∷ l) w c d f (
        read_fields-cons a l v (assign b w c) d e
          (subst (λ k. read_fields read assign l k ≡ ok d) swapped h2))

  read_fields-perm :
      {order order' : List F}
      → Permᴰ order order'
      → (c d : Config) → read_fields read assign order c ≡ ok d
      → read_fields read assign order' c ≡ ok d
  unfolding read_fields
  read_fields-perm Permᴰ.nil c d h = h
  read_fields-perm (Permᴰ.cons {a} {b} {l₁} {l₂} e p) c d h =
      let (v, first, rest) = >>=-ok (read a) _ _ h in
      subst (λ x. read_fields read assign (x ∷ l₂) c ≡ ok d) e
        (read_fields-cons a l₂ v c d first (read_fields-perm p (assign a v c) d rest))
  read_fields-perm (Permᴰ.swap {a} {b} {a'} {b'} {l} e f) c d h =
      subst₂ (λ x y. read_fields read assign (x ∷ y ∷ l) c ≡ ok d) f e
        (read_fields-swap a b l c d h)
  read_fields-perm (Permᴰ.trans p q) c d h = read_fields-perm q c d (read_fields-perm p c d h)

-- Two ways in which the loops of one call may run.
abbrev pub SameFields : Orders → Orders → Type 0
SameFields orders orders' =
    Permᴰ orders.targets orders'.targets × Permᴰ orders.tuples orders'.tuples

module _ (system : SystemLibrary) (orders orders' : Orders) (lookup : Lookup) (prefix : Bytes)
    (same : SameFields orders orders') where
  load_nacos-perm :
      (c d : Config)
      → load_nacos system orders lookup prefix c ≡ ok d
      → load_nacos system orders' lookup prefix c ≡ ok d
  unfolding load_nacos
  load_nacos-perm c d h0 =
      let (named, e1, h1) = >>=-ok (read_targets lookup prefix orders.targets c) _ _ h0 in
      let (found, e2, h2) = >>=-ok (load_origin system lookup prefix named) _ _ h1 in
      let (tuple, e3, h3) = >>=-ok (read_tuples lookup prefix orders.tuples found) _ _ h2 in
      let first = read_fields-perm _ assign_target assign_target-commute same.0 c named e1 in
      let second = read_fields-perm _ assign_tuple assign_tuple-commute same.1 found tuple e3 in
      rw (first, e2, second, h3)

  load_mode-perm :
      (c d : Config)
      → load_mode system orders lookup prefix c ≡ ok d
      → load_mode system orders' lookup prefix c ≡ ok d
  unfolding load_mode
  load_mode-perm c d h = ground (arith, load_nacos-perm c d)

  load_config-ok :
      (target_error : ReleaseTarget → Option GoError) (agent_id instance_id : Bytes) (c : Config)
      → load_config system target_error orders (some lookup) prefix agent_id instance_id ≡ ok c
      → load_config system target_error orders' (some lookup) prefix agent_id instance_id ≡ ok c
  unfolding load_config load_from
  load_config-ok target_error agent_id instance_id c h =
      let from : load_from system target_error orders lookup prefix agent_id instance_id ≡ ok c =
        ground arith in
      let (mode, e1, h1) =
        >>=-ok (required lookup (name_of prefix (codes "REGISTRATION_MODE"))) _ _ from in
      let (d, e2, h2) =
        >>=-ok (load_mode system orders lookup prefix (started mode agent_id instance_id)) _ _ h1 in
      let again = load_mode-perm (started mode agent_id instance_id) d e2 in
      let from' : load_from system target_error orders' lookup prefix agent_id instance_id ≡ ok c =
        rw (e1, again, h2) in
      ground arith

-- The order in which Go happens to run over the two maps of `LoadConfig` changes neither whether a call
-- succeeds nor the configuration that it returns.
pub load_config-perm :
    (system : SystemLibrary) (target_error : ReleaseTarget → Option GoError)
    (orders orders' : Orders) (lookup : Lookup) (prefix agent_id instance_id : Bytes) (c : Config)
    → SameFields orders orders'
    → (load_config system target_error orders (some lookup) prefix agent_id instance_id ≡ ok c)
      ↔ (load_config system target_error orders' (some lookup) prefix agent_id instance_id ≡ ok c)
load_config-perm system target_error orders orders' lookup prefix agent_id instance_id c (p, q) = (
  load_config-ok system orders orders' lookup prefix (p, q) target_error agent_id instance_id c,
  load_config-ok system orders' orders lookup prefix (Permᴰ.symm p, Permᴰ.symm q) target_error
      agent_id instance_id c,
)
