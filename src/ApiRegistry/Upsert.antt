-- ===== src/ApiRegistry/Upsert.antt =====
-- A second registration of an API takes the place of the first.
use win_os_layer.Common.{
  ℕ, String, ◌≡◌, refl, sym, ap, ◌∙◌, subst, ◌⊎◌, inl, inr, Bool, true, Option, none, some, [], ◌∷◌,
  arith, if◌then◌else◌, Bool-cases, get_or, length,
}
use win_os_layer.Common.Dict.{Dict, lookup, insert, lookup-insert_self}
use win_os_layer.ApiRegistry.Model.{
  ApiStatus, Epoch, Payload, ApiRecord, ApiRegistry, Rejection, fields_required, requested_status,
}
use win_os_layer.ApiRegistry.Operations.{
  lacks_field, id_of, creation_time, new_record, store, register, register_with,
}

length-insert :
    {V : Type 0} (k : String) (v w : V) (d : Dict V)
    → lookup k d ≡ some v
    → length (insert k w d) ≡ length d
unfolding lookup insert
length-insert k v w [] h = absurd cc
length-insert k v w ((j, u) ∷ d) h = ground (arith, length-insert k v w d)

module _ {J : Type 0} (parse_date : String → Option Epoch) where
  -- What a registration that succeeds returns.
  abbrev stored : ApiRegistry J → Payload J → ℕ → String → ApiStatus → ApiRegistry J × ApiRecord J
  stored r p now id asked =
      (store r (new_record parse_date r p id asked now), new_record parse_date r p id asked now)

  register_with-inl :
      (r : ApiRegistry J) (p : Payload J) (now : ℕ) (o : Option String) (a : Option ApiStatus)
      (x : ApiRegistry J × ApiRecord J)
      → register_with parse_date r p now o a ≡ inl x
      → (id : String) × (asked : ApiStatus) × (o ≡ some id) × (x ≡ stored r p now id asked)
  register_with-inl r p now none a x h = absurd cc
  register_with-inl r p now (some id) none x h = absurd cc
  register_with-inl r p now (some id) (some asked) x h =
      (id, asked, refl, sym (ap (λ s. elim s [ inl y ↦ y | inr e ↦ x ]) h))

  -- The second of two records under one id.
  second_record :
      (r : ApiRegistry J) (p q : Payload J) (now later : ℕ) (id : String) (a b : ApiStatus)
      → let r' = (stored r p now id a).0 in
        let rec = new_record parse_date r p id a now in
        let rec' = new_record parse_date r' q id b later in
        (rec'.id ≡ rec.id)
        × (rec'.created_at ≡ rec.created_at)
        × (lookup id (store r' rec').by_id ≡ some rec')
        × (length (store r' rec').by_id ≡ length r'.by_id)
  unfolding new_record store creation_time
  second_record r p q now later id a b =
      let rec = new_record parse_date r p id a now in
      let r' = store r rec in
      let found = lookup-insert_self id rec r.by_id in
      (
        refl,
        ap (λ o. creation_time parse_date q o later) found,
        lookup-insert_self id (new_record parse_date r' q id b later) r'.by_id,
        length-insert id rec (new_record parse_date r' q id b later) r'.by_id found,
      )

refused : {A : Type 0} (x : A) (e : A ⊎ Rejection) → e ≡ inr fields_required → e ≡ inl x → ⊥
refused x e h k = cc

-- What two registrations under one id have to do with one another.
abbrev Replaces : {J : Type 0} → ApiRegistry J × ApiRecord J → ApiRegistry J × ApiRecord J → Type 0
Replaces x y =
    (y.1.id ≡ x.1.id)
    × (y.1.created_at ≡ x.1.created_at)
    × (lookup x.1.id y.0.by_id ≡ some y.1)
    × (length y.0.by_id ≡ length x.0.by_id)

module _ {J : Type 0} (digest : String → String) (parse_date : String → Option Epoch) where
  register-inl :
      (r : ApiRegistry J) (p : Payload J) (force_id : Option String) (now : ℕ)
      (x : ApiRegistry J × ApiRecord J)
      → register digest parse_date r p force_id now ≡ inl x
      → (id : String) × (asked : ApiStatus) × (id_of digest p force_id ≡ some id)
        × (x ≡ stored parse_date r p now id asked)
  unfolding register
  register-inl r p force_id now x h =
      let found =
        register_with parse_date r p now (id_of digest p force_id)
          (requested_status p.status p.lifecycle p.d3) in
      let at : Bool → (ApiRegistry J × ApiRecord J) ⊎ Rejection =
        λ b. if b then inr fields_required else found in
      elim (Bool-cases (lacks_field p)) [
        | inl e ↦ absurd (refused x (at true) refl (sym (ap at e) ∙ h))
        | inr e ↦
            register_with-inl parse_date r p now (id_of digest p force_id)
              (requested_status p.status p.lifecycle p.d3) x (sym (ap at e) ∙ h)
      ]

  -- A registration under the id of the one before it keeps the id and the time of creation, takes
  -- the place of the old record, and adds none.
  pub register-register :
      (r r' r'' : ApiRegistry J) (p q : Payload J) (f g : Option String) (now later : ℕ)
      (rec rec' : ApiRecord J)
      → id_of digest p f ≡ id_of digest q g
      → register digest parse_date r p f now ≡ inl (r', rec)
      → register digest parse_date r' q g later ≡ inl (r'', rec')
      → (rec'.id ≡ rec.id)
        × (rec'.created_at ≡ rec.created_at)
        × (lookup rec.id r''.by_id ≡ some rec')
        × (length r''.by_id ≡ length r'.by_id)
  register-register r r' r'' p q f g now later rec rec' same h k =
      let (id, a, i, x) = register-inl r p f now (r', rec) h in
      let (id', b, i', x') = register-inl r' q g later (r'', rec') k in
      let first = stored parse_date r p now id a in
      let same_id : id' ≡ id = ap (get_or id) (sym i' ∙ sym same ∙ i) in
      let y : (r'', rec') ≡ stored parse_date first.0 q later id b =
        x'
        ∙ ap (λ z. stored parse_date z q later id' b) (ap (λ z. z.0) x)
        ∙ ap (λ j. stored parse_date first.0 q later j b) same_id in
      subst (λ z. Replaces z (r'', rec')) (sym x)
        (subst (Replaces first) (sym y)
          (unfold new_record in second_record parse_date r p q now later id a b))
