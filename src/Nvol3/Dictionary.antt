-- ===== src/Nvol3/Dictionary.antt =====
-- The dictionary of qoraal/common/dictionary.h, which is not part of the repository, as far as nvol3
-- uses it: an interface. A key is the bytes that the dictionary takes from where a pointer points, by
-- its key specification, and a node of the dictionary is known by its key.
use qoraal_flash.Common.{
  ℕ, ◌≡◌, ◌≢◌, Option, none, some, List, Bool, true, false, ◌==◌, [], ◌∷◌, ◌&&◌,
}

-- NVOL3_ENTRY_T: the slot of the record, the length of its data, and the data where it is cached.
pub record Entry : Type 0 where
  pub idx : ℕ
  pub length : ℕ
  pub local : List ℕ

abbrev pub Key : Type 0
Key = List ℕ

-- Whether two keys are the same.
unfoldable pub same_key : Key → Key → Bool
same_key [] [] = true
same_key [] (y ∷ ys) = false
same_key (x ∷ xs) [] = false
same_key (x ∷ xs) (y ∷ ys) = (x == y) && same_key xs ys

pub record Dictionary : Type 1 where
  pub Dict : Type 0
  -- dictionary_init
  pub init : Dict
  pub key_at : List ℕ → Key
  -- dictionary_get and dictionary_get_value
  pub get : Dict → Key → Option Entry
  -- dictionary_install_size and the assignments to the new value
  pub install : Dict → Key → Entry → Dict
  -- assignments through dictionary_get_value
  pub assign : Dict → Key → Entry → Dict
  pub remove : Dict → Key → Dict
  -- The return value of dictionary_remove, 0 where it has removed nothing.
  pub removed : Dict → Key → ℕ
  pub remove_all : Dict → Dict
  pub count : Dict → ℕ
  -- The nodes in the order of dictionary_it_first and dictionary_it_next without a comparison.
  pub nodes : Dict → List Key
  -- dictionary_it_next from a node, in the same order.
  pub next_node : Dict → Key → Option Key
  -- What stands in memory from dictionary_get_key on.
  pub key_memory : Dict → Key → List ℕ

-- What the calls promise: a dictionary is a map from keys to values.
pub record IsMap (D : Dictionary) : Type 0 where
  pub get-remove_all : (d : D.Dict) (k : Key) → D.get (D.remove_all d) k ≡ none
  pub get-install : (d : D.Dict) (k : Key) (e : Entry) → D.get (D.install d k e) k ≡ some e
  pub get-install_ne :
      (d : D.Dict) (k j : Key) (e : Entry) → j ≢ k → D.get (D.install d k e) j ≡ D.get d j
  pub get-assign : (d : D.Dict) (k : Key) (e : Entry) → D.get (D.assign d k e) k ≡ some e
  pub get-assign_ne :
      (d : D.Dict) (k j : Key) (e : Entry) → j ≢ k → D.get (D.assign d k e) j ≡ D.get d j
  pub get-remove : (d : D.Dict) (k : Key) → D.get (D.remove d k) k ≡ none
  pub get-remove_ne : (d : D.Dict) (k j : Key) → j ≢ k → D.get (D.remove d k) j ≡ D.get d j
  pub get-removed : (d : D.Dict) (k : Key) (e : Entry) → D.get d k ≡ some e → D.removed d k ≢ 0
