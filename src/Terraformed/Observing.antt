-- ===== src/Terraformed/Observing.antt =====
-- GetParameters and SetParameters, from one object to another, and what the other methods leave alone.
use provider_upjet_unifi.Base.{ap, ◌≡◌, refl, Option, none, some}
use provider_upjet_unifi.Terraformed.{
  Shapes, Marshalled, marshalled, unmarshallable, Object, Runtime, with_for_provider,
  get_attributes, decoded, get_parameters, set_parameters, with_at_provider, observe,
  set_observation, late_initialize, late_initialize_with,
}

-- What json.TFParser promises for the parameters: bytes have a meaning; what is decoded into a map and
-- encoded again has the same; decoding looks at the meaning only; and what a struct was encoded to can
-- be decoded into a zero struct, which then has the same encoding. It need not be the same struct: a
-- field tagged tf:"-" is not encoded.
pub record IsCodec {S : Shapes} (R : Runtime S) (Meaning : Type 0) (meaning : S.Bytes → Meaning)
    : Type 0 where
  pub attributes :
      (j : S.Bytes) (m : S.Attributes)
      → R.unmarshal_attributes j R.empty_map ≡ (m, none)
      → (j' : S.Bytes) × (R.marshal_attributes m ≡ marshalled j') × (meaning j' ≡ meaning j)
  pub decoding :
      (j j' : S.Bytes) (p : S.Parameters)
      → meaning j' ≡ meaning j
      → R.unmarshal_parameters j' p ≡ R.unmarshal_parameters j p
  pub parameters :
      (j : S.Bytes) (p : S.Parameters)
      → R.marshal_parameters p ≡ marshalled j
      → (q : S.Parameters) × (R.unmarshal_parameters j R.zero_parameters ≡ (q, none))
        × (R.marshal_parameters q ≡ marshalled j)

module _ {S : Shapes} (R : Runtime S) where
  decoded-inv :
      (r : S.Attributes × Option S.Failure) (m : S.Attributes)
      → decoded R r ≡ (m, none)
      → r ≡ (m, none)
  decoded-inv (c, none) m h = ap (λ x. (x, none)) (ap (λ x. x.0) h)
  decoded-inv (c, some e) m h = cc (ap (λ x. x.1) h)

  get_attributes-inv :
      (r : Marshalled S) (m : S.Attributes)
      → get_attributes R r ≡ (m, none)
      → (j : S.Bytes) × (r ≡ marshalled j) × (R.unmarshal_attributes j R.empty_map ≡ (m, none))
  unfolding get_attributes
  get_attributes-inv (marshalled j) m h =
      (j, refl, decoded-inv (R.unmarshal_attributes j R.empty_map) m h)
  get_attributes-inv (unmarshallable e) m h = cc (ap (λ x. x.1) h)

  -- Where json.TFParser keeps its promises, what GetParameters returns for one object can be given to
  -- SetParameters of another, whose parameters are still zero: this fails neither, changes nothing of
  -- that object but its parameters, and GetParameters then returns the same for it.
  pub set_parameters-get_parameters :
      {Meaning : Type 0} (meaning : S.Bytes → Meaning)
      → IsCodec R Meaning meaning
      → (o o' : Object S) (m : S.Attributes) → get_parameters R o ≡ (m, none)
      → o'.for_provider ≡ R.zero_parameters
      → (p : S.Parameters) × (set_parameters R m o' ≡ (with_for_provider p o', none))
        × (get_parameters R (with_for_provider p o') ≡ (m, none))
  unfolding get_parameters set_parameters get_attributes
  set_parameters-get_parameters meaning law o o' m h zero =
      let (j, encoded, read) = get_attributes-inv (R.marshal_parameters o.for_provider) m h in
      let (j', again, same) = law.attributes j m read in
      let (p, made, encoded') = law.parameters j o.for_provider encoded in
      (p, rw (again, zero, law.decoding j j' R.zero_parameters same, made), rw (encoded', read))

  late_initialize_with-for_provider :
      (o : Object S) (r : S.Parameters × Option S.Failure)
      → (late_initialize_with R o r).0
        ≡ with_for_provider ((late_initialize_with R o r).0.for_provider) o
  unfolding late_initialize_with
  late_initialize_with-for_provider o (params, none) = refl
  late_initialize_with-for_provider o (params, some e) = refl

  -- LateInitialize changes nothing of an object but spec.forProvider, whether it fails or not.
  pub late_initialize-for_provider :
      (attrs : S.Bytes) (o : Object S)
      → (late_initialize R attrs o).0
        ≡ with_for_provider ((late_initialize R attrs o).0.for_provider) o
  unfolding late_initialize
  late_initialize-for_provider attrs o =
      late_initialize_with-for_provider o (R.unmarshal_parameters attrs R.zero_parameters)

  observe-at_provider :
      (o : Object S) (j : Marshalled S)
      → (observe R o j).0 ≡ with_at_provider ((observe R o j).0.at_provider) o
  observe-at_provider o (marshalled j) = refl
  observe-at_provider o (unmarshallable e) = refl

  -- SetObservation changes nothing of an object but status.atProvider, whether it fails or not.
  pub set_observation-at_provider :
      (obs : S.Attributes) (o : Object S)
      → (set_observation R obs o).0 ≡ with_at_provider ((set_observation R obs o).0.at_provider) o
  unfolding set_observation
  set_observation-at_provider obs o = observe-at_provider o (R.marshal_attributes obs)
