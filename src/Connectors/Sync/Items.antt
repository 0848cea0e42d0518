-- ===== src/Connectors/Sync/Items.antt =====
-- What `_upsert_item` puts on record, read by key.
use pro_rag.Prelude.{
  some-injective, ℕ, ◌≤◌, ◌<◌, ◌≡◌, ◌≢◌, refl, sym, ap, ◌∙◌, inl, inr, Bool-cases, if_true,
  if_false, Option, none, some, List, [], ◌∷◌, arith, Text, same_text_iff, ==_iff,
}
use pro_rag.Connectors.Sync.{
  RemoteObject, ItemStatus, ConnectorItem, get_known, known_of, item_of, put_item, upsert_item,
  fits_integer,
}

get-put_item :
    (row : ConnectorItem) (items : List ConnectorItem)
    → get_known (known_of row.connector_id (put_item row items)) row.external_id
      ≡ some (row.etag, row.size)
unfolding put_item
get-put_item row [] = ground (
  arith,
  (same_text_iff row.external_id row.external_id).1 refl,
  (==_iff row.connector_id row.connector_id).1 refl,
)
get-put_item row (r ∷ items) = ground (
  arith,
  get-put_item row items,
  (same_text_iff row.external_id row.external_id).1 refl,
  (==_iff row.connector_id row.connector_id).1 refl,
)

get-put_item_other :
    (row : ConnectorItem) (items : List ConnectorItem) (connector_id : ℕ) (key : Text)
    → key ≢ row.external_id
    → get_known (known_of connector_id (put_item row items)) key
      ≡ get_known (known_of connector_id items) key
unfolding put_item
get-put_item_other row [] connector_id key other =
    ground (arith, (same_text_iff row.external_id key).0, other)
get-put_item_other row (r ∷ items) connector_id key other = ground (
  arith,
  get-put_item_other row items connector_id key other,
  (same_text_iff row.external_id key).0,
  (same_text_iff r.external_id key).0,
  (same_text_iff r.external_id row.external_id).0,
  (==_iff r.connector_id row.connector_id).0,
  other,
)

pub upsert_item-written :
    (items : List ConnectorItem) (connector_id : ℕ) (obj : RemoteObject) (status : ItemStatus)
    (doc_id : Option ℕ) (reason : Option Text) (now : ℕ) {after : List ConnectorItem}
    → upsert_item items connector_id obj.key obj status doc_id reason now ≡ some after
    → put_item (item_of connector_id obj.key obj status doc_id reason now) items ≡ after
unfolding upsert_item
upsert_item-written items connector_id obj status doc_id reason now h =
    elim (Bool-cases (fits_integer obj.size)) [
      | inl e ↦ some-injective (sym (if_true _ _ e) ∙ h)
      | inr e ↦ absurd (let k = sym (if_false _ _ e) ∙ h in cc)
    ]

-- What is recorded of an object's key reads back the object's etag and size, and every other key
-- reads as before, in this connector and in the others.
pub get-upserted :
    (items : List ConnectorItem) (connector_id : ℕ) (obj : RemoteObject) (status : ItemStatus)
    (doc_id : Option ℕ) (reason : Option Text) (now : ℕ) {after : List ConnectorItem}
    → upsert_item items connector_id obj.key obj status doc_id reason now ≡ some after
    → (get_known (known_of connector_id after) obj.key ≡ some (some obj.etag, some obj.size))
      × ((other : ℕ) (key : Text)
          → key ≢ obj.key
          → get_known (known_of other after) key ≡ get_known (known_of other items) key)
get-upserted items connector_id obj status doc_id reason now h =
    let same = upsert_item-written items connector_id obj status doc_id reason now h in
    (
      ap (λ t. get_known (known_of connector_id t) obj.key) (sym same)
          ∙ get-put_item (item_of connector_id obj.key obj status doc_id reason now) items,
      (λ other key apart.
          ap (λ t. get_known (known_of other t) key) (sym same)
          ∙ get-put_item_other (item_of connector_id obj.key obj status doc_id reason now) items
              other key apart),
    )

-- An item is recorded exactly where the size of its object fits a column of 32 bits; after that its
-- key reads back the object's etag and size, and every other key reads as before, in this connector
-- and in the others.
pub get-upsert_item :
    (items : List ConnectorItem) (connector_id : ℕ) (obj : RemoteObject) (status : ItemStatus)
    (doc_id : Option ℕ) (reason : Option Text) (now : ℕ)
    → (2147483648 ≤ obj.size
        → upsert_item items connector_id obj.key obj status doc_id reason now ≡ none)
      × (obj.size < 2147483648
          → (after : List ConnectorItem) × (upsert_item items connector_id obj.key obj status doc_id
                reason now
              ≡ some after)
            × (get_known (known_of connector_id after) obj.key
                ≡ some (some obj.etag, some obj.size))
            × ((other : ℕ) (key : Text)
                → key ≢ obj.key
                → get_known (known_of other after) key ≡ get_known (known_of other items) key))
unfolding upsert_item
get-upsert_item items connector_id obj status doc_id reason now = (
  (λ big. if_false {b = fits_integer obj.size} _ _ (ground (arith, big))),
  (λ fits.
      let there = if_true {b = fits_integer obj.size} _ none (ground (arith, fits)) in
      (
        put_item (item_of connector_id obj.key obj status doc_id reason now) items,
        there,
        (get-upserted items connector_id obj status doc_id reason now there).0,
        (get-upserted items connector_id obj status doc_id reason now there).1,
      )),
)
