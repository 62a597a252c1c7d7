-- ===== src/Authorization/Fga.antt =====
-- The authorizer of OpenFGA is consistent where the server is.
use nora_fleet.Common.{
  String, ◌≡◌, refl, sym, ap, ◌∙◌, ◌↔◌, Bool, true, false, none, some, List, [], ◌∷◌, ◌==◌, eq_iff,
  elem, In, Bool-cases, inl, inr, some_inj, arith, ◌>>=◌,
}
use nora_fleet.Authorization.{
  Entity, FgaClient, object_text, entity_text, id_text, fga_list_id, identifiers, request_user,
  fga_authorize, fga_list, open_fga,
}
use nora_fleet.Authorization.Objects.{IsPlain, identifier-object}
use nora_fleet.Authorization.Laws.{IsConsistent}

-- The text is of an object of the type, with an id without a colon.
abbrev pub IsObject : String → String → Type 0
IsObject type object = (id : String) × IsPlain id × (object ≡ object_text type id)

abbrev pub AreObjects : String → List String → Type 0
AreObjects type [] = Unit
AreObjects type (object ∷ objects) = IsObject type object × AreObjects type objects

-- What the server promises: it lists objects of the type that is asked for, and of those the ones
-- to which the user has the relation.
abbrev pub IsServer : FgaClient → String → String → String → Type 0
IsServer client user relation type =
    AreObjects type (client.list_objects (some user) relation type)
    × ((id : String)
        → IsPlain id
        → In (object_text type id) (client.list_objects (some user) relation type)
          ↔ (client.check user relation (object_text type id) ≡ true))

object_text-eq :
    (type id id' : String)
    → IsPlain type
    → IsPlain id
    → IsPlain id'
    → (object_text type id' == object_text type id) ≡ (id' == id)
object_text-eq type id id' h plain plain' = ground (
  arith,
  identifier-object type id h plain,
  identifier-object type id' h plain',
  eq_iff id' id,
  eq_iff (object_text type id') (object_text type id),
  Bool-cases (id' == id),
)

-- The ids that are read from the texts of objects are those that the texts were made of.
identifiers-object :
    (type : String) (objects : List String) (id : String)
    → IsPlain type
    → IsPlain id
    → AreObjects type objects
    → (ids : List String) × (identifiers objects ≡ some ids)
      × (elem id ids ≡ elem (object_text type id) objects)
unfolding identifiers elem
identifiers-object type [] id h h' all = ([], refl, refl)
identifiers-object type (object ∷ objects) id h h' ((id', plain, e), all) =
    let (ids, read, same) = identifiers-object type objects id h h' all in
    (
      id' ∷ ids,
      rw (e, identifier-object type id' h plain, read) refl,
      rw (e, object_text-eq type id id' h h' plain, same) refl,
    )

authorize_iff :
    (client : FgaClient) (fail_on_unauthorized : Bool) (actor : Entity) (relation type id : String)
    → (fga_authorize client fail_on_unauthorized actor relation
          (record { type = type; id = some id })
        ≡ some true)
      ↔ (client.check (entity_text actor) relation (object_text type id) ≡ true)
unfolding fga_authorize entity_text id_text
authorize_iff client fail actor relation type id =
    elim (Bool-cases (client.check (entity_text actor) relation (object_text type id))) [
      | inl allowed ↦ (λ h. allowed, λ h. rw allowed refl)
      | inr denied ↦ (λ h. ground (arith, denied, h), λ h. ground (arith, denied, h))
    ]

listed_ids :
    (client : FgaClient) (fail_on_unauthorized : Bool) (actor : Entity) (relation type : String)
    → (actor.type == "") ≡ false
    → fga_list client fail_on_unauthorized actor relation (record { type = type; id = none }) ≡ (
        identifiers (client.list_objects (some (entity_text actor)) relation type) >>= λ ids.
        some (some ids))
unfolding fga_list fga_list_id request_user
listed_ids client fail actor relation type named = rw named refl

-- An actor with a type gets from the OpenFGA authorizer the ids for which it is authorized, where the
-- server lists the objects that it allows.
pub open_fga-IsConsistent :
    (client : FgaClient) (fail_on_unauthorized : Bool) (actor : Entity) (relation type : String)
    → (actor.type == "") ≡ false
    → IsPlain type
    → IsServer client (entity_text actor) relation type
    → IsConsistent (open_fga client fail_on_unauthorized) actor relation type
unfolding open_fga
open_fga-IsConsistent client fail actor relation type named h (objects, allows) answer id plain e =
    let (ids, read, same) = identifiers-object type _ id h plain objects in
    let (to, from) = allows id plain in
    let (read_to, read_from) = authorize_iff client fail actor relation type id in
    let e' =
      sym e
      ∙ listed_ids client fail actor relation type named
      ∙ ap (λ o. o >>= λ ids. some (some ids)) read in
    rw (some_inj e') (λ x. read_from (to (sym same ∙ x)), λ y. same ∙ from (read_to y))
