-- ===== src/Store/Cells.antt =====
-- A store read after a write of one collection.
use objy.Common.{◌≡◌, if◌then◌else◌, get_or, [], arith}
use objy.Common.Text.{Text, text_eq, text_eq_iff}
use objy.Common.Dict.{get, put, get-put, put-put, get-put_self}
use objy.Collection.{Collection}
use objy.Store.{Store, collection_of, store_collection}

module _ {A : Type 0} where
  pub collection_of-store_collection :
      (db coll db' coll' : Text) (c : Collection A) (st : Store A)
      → collection_of db' coll' (store_collection db coll c st) ≡ (
          if text_eq db db'
          then if text_eq coll coll' then c else collection_of db' coll' st
          else collection_of db' coll' st)
  unfolding collection_of store_collection
  collection_of-store_collection db coll db' coll' c st = ground (
    arith,
    text_eq_iff db db',
    text_eq_iff coll coll',
    get-put db db' (put coll c (get_or (get db st.dbs) [])) st.dbs,
    get-put coll coll' c (get_or (get db st.dbs) []),
  )

  pub collection_of-store_collection_self :
      (db coll : Text) (c : Collection A) (st : Store A)
      → collection_of db coll (store_collection db coll c st) ≡ c
  collection_of-store_collection_self db coll c st =
      rw collection_of-store_collection (ground (arith, text_eq_iff db db, text_eq_iff coll coll))

  pub store_collection_twice :
      (db coll : Text) (c c' : Collection A) (st : Store A)
      → store_collection db coll c (store_collection db coll c' st) ≡ store_collection db coll c st
  unfolding store_collection
  store_collection_twice db coll c c' st = simp (get-put_self, put-put)
