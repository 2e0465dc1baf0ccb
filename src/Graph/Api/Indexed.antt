-- ===== src/Graph/Api/Indexed.antt =====
-- modules/graph/index/cache.go: which of its two caches `ReceiveItem` puts an item into.
use falcon_plus_learn.Base.{
  Text, text_eq, ◌≡◌, refl, ◌∙◌, Bool, true, false, not, ◌&&◌, Option, none, some, if◌then◌else◌,
  Bool-cases, Option-cases, inl, inr,
}
use falcon_plus_learn.Base.Map.{Map, lookup, insert, lookup-insert}
use falcon_plus_learn.Graph.LinkedList.{GraphItem, graph_uuid, graph_checksum}
use falcon_plus_learn.Graph.Index.{IndexCacheItem, IndexCaches, receive_item}
use falcon_plus_learn.Graph.Api.{Outside}

module _ {V M L : Type 0} (out : Outside V M L) where
  -- The index has the item's digest under the same endpoint and counter, or, if the digest is not in
  -- it, has a file for it.
  abbrev pub is_indexed : GraphItem V → IndexCaches V → Bool
  is_indexed item c = elim (lookup (graph_checksum out.md5 item) c.indexed) [
    | some old ↦ text_eq (graph_uuid item) old.uuid
    | none ↦ out.files.is_rrd_file_exist (graph_checksum out.md5 item) item
  ]

  abbrev pub entry_of : GraphItem V → IndexCacheItem V
  entry_of item = record { uuid = graph_uuid item; item = item }

  -- The entry of a digest in the map after, if the item is put under its digest.
  abbrev pub entry_after :
      GraphItem V → Bool → Text → Map (IndexCacheItem V) → Option (IndexCacheItem V)
  entry_after item is_put j m =
      if is_put && text_eq (graph_checksum out.md5 item) j then some (entry_of item) else lookup j m

  -- An indexed item goes into the items that are indexed, another into those to be indexed, and
  -- every other entry stays.
  pub record Indexes (is_put : Bool) (item : GraphItem V) (c c' : IndexCaches V) : Type 0 where
    pub known :
        (j : Text)
        → lookup j c'.indexed ≡ entry_after item (is_put && is_indexed item c) j c.indexed
    pub waiting :
        (j : Text)
        → lookup j c'.unindexed ≡ entry_after item (is_put && not (is_indexed item c)) j c.unindexed

  put_indexed :
      (item : GraphItem V) (c : IndexCaches V)
      → is_indexed item c ≡ true
      → Indexes true item c
          (record c { indexed = insert (graph_checksum out.md5 item) (entry_of item) c.indexed })
  put_indexed item c h = record {
    known =
        λ j. lookup-insert (graph_checksum out.md5 item) j (entry_of item) c.indexed ∙ rw h refl;
    waiting = λ j. rw h refl;
  }

  put_unindexed :
      (item : GraphItem V) (c : IndexCaches V)
      → is_indexed item c ≡ false
      → Indexes true item c (record c {
        unindexed = insert (graph_checksum out.md5 item) (entry_of item) c.unindexed;
      })
  put_unindexed item c h = record {
    known = λ j. rw h refl;
    waiting =
        λ j. lookup-insert (graph_checksum out.md5 item) j (entry_of item) c.unindexed ∙ rw h refl;
  }

  pub receive_item-Indexes :
      (item : GraphItem V) (c : IndexCaches V)
      → Indexes true item c (receive_item out.files item (graph_checksum out.md5 item) c)
  unfolding receive_item
  receive_item-Indexes item c =
      elim (Option-cases (lookup (graph_checksum out.md5 item) c.indexed)) [
        | inl n ↦
            elim (Bool-cases (out.files.is_rrd_file_exist (graph_checksum out.md5 item) item)) [
              | inl f ↦ rw (n, f, receive_item) (put_indexed item c (rw (n, is_indexed) f))
              | inr f ↦ rw (n, f, receive_item) (put_unindexed item c (rw (n, is_indexed) f))
            ]
        | inr (old, y) ↦ elim (Bool-cases (text_eq (graph_uuid item) old.uuid)) [
          | inl f ↦ rw (y, f, receive_item) (put_indexed item c (rw (y, is_indexed) f))
          | inr f ↦ rw (y, f, receive_item) (put_unindexed item c (rw (y, is_indexed) f))
        ]
      ]
