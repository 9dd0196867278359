-- ===== src/Listing/Natural.antt =====
-- Two listings that agree file by file and entry by entry agree.
use open_fs.Prelude.{
  ◌≡◌, refl, sym, ◌∙◌, ap, Bool, none, some, List, [], ◌∷◌, map, arith, list_eq, nat_eq,
  Option-cases, Bool-cases, inl, inr,
}
use open_fs.Prelude.Map
use open_fs.Prelude.Text.{Str, strip_prefix, is_empty}
use open_fs.Listing.{
  or_insert, add_relative, add_file, collect_entries, values, entry_leb, insert_entry, sort_entries,
  first_component, has_slash,
}

module _ {ℓ κ} {V : Type ℓ} {W : Type κ} (h : V → W) where
  -- the map with its values changed
  unfoldable pub map_values : Map.Map Str V → Map.Map Str W
  map_values [] = []
  map_values ((k, v) ∷ m) = (k, h v) ∷ map_values m

  pub get-map_values :
      (k : Str) (m : Map.Map Str V)
      → Map.get k (map_values m) ≡ elim (Map.get k m) [ none ↦ none | some v ↦ some (h v) ]
  unfolding map_values Map.get
  get-map_values k [] = refl
  get-map_values k ((j, v) ∷ m) = ground (arith, get-map_values k m)

  pub insert-map_values :
      (k : Str) (v : V) (m : Map.Map Str V)
      → map_values (Map.insert k v m) ≡ Map.insert k (h v) (map_values m)
  unfolding map_values Map.insert
  insert-map_values k v [] = refl
  insert-map_values k v ((j, w) ∷ m) = ground (arith, insert-map_values k v m)

  pub remove-map_values :
      (k : Str) (m : Map.Map Str V) → map_values (Map.remove k m) ≡ Map.remove k (map_values m)
  unfolding map_values Map.remove
  remove-map_values k [] = refl
  remove-map_values k ((j, w) ∷ m) = ground (arith, remove-map_values k m)

  pub values-map_values : (m : Map.Map Str V) → values (map_values m) ≡ map h (values m)
  unfolding map_values values
  values-map_values [] = refl
  values-map_values ((k, v) ∷ m) = ap (λ l. h v ∷ l) (values-map_values m)

module _ {ℓ κ μ ν} {V : Type ℓ} {W : Type κ} {E : Type μ} {F : Type ν} (h : V → W) (g : E → F)
    (dir : Str → E) (file : Str → V → E) (dir' : Str → F) (file' : Str → W → F)
    (same_dir : (s : Str) → g (dir s) ≡ dir' s)
    (same_file : (s : Str) (v : V) → g (file s v) ≡ file' s (h v)) where
  or_insert-natural :
      (name : Str) (entries : Map.Map Str E)
      → or_insert dir' file' name (map_values g entries)
        ≡ map_values g (or_insert dir file name entries)
  or_insert-natural name entries = elim (Option-cases (Map.get name entries)) [
    | inl absent ↦
        let absent' : Map.get name (map_values g entries) ≡ none =
          ground (arith, get-map_values g name entries, absent) in
        rw (absent, absent', or_insert)
          (ap (λ f. Map.insert name f (map_values g entries)) (sym (same_dir name))
            ∙ sym (insert-map_values g name (dir name) entries))
    | inr (e, there) ↦
        let there' : Map.get name (map_values g entries) ≡ some (g e) =
          ground (arith, get-map_values g name entries, there) in
        rw (there, there', or_insert) refl
  ]

  add_relative-natural :
      (relative : Str) (v : V) (entries : Map.Map Str E)
      → add_relative dir' file' relative (h v) (map_values g entries)
        ≡ map_values g (add_relative dir file relative v entries)
  add_relative-natural relative v entries =
      let name = first_component relative in
      elim (Bool-cases (is_empty relative)) [
        | inl empty ↦ rw empty refl
        | inr full ↦ elim (Bool-cases (has_slash relative)) [
          | inr flat ↦
              rw (full, flat)
                (ap (λ f. Map.insert name f (map_values g entries)) (sym (same_file name v))
                  ∙ sym (insert-map_values g name (file name v) entries))
          | inl deep ↦ rw (full, deep) (or_insert-natural name entries)
        ]
      ]

  add_file-natural :
      (prefix path : Str) (v : V) (entries : Map.Map Str E)
      → add_file dir' file' prefix path (h v) (map_values g entries)
        ≡ map_values g (add_file dir file prefix path v entries)
  unfolding add_file
  add_file-natural prefix path v entries = elim (Option-cases (strip_prefix prefix path)) [
    | inl outside ↦ rw (outside, add_file) refl
    | inr (relative, inside) ↦ rw (inside, add_file) (add_relative-natural relative v entries)
  ]

  pub collect_entries-natural :
      (prefix : Str) (files : Map.Map Str V) (entries : Map.Map Str E)
      → collect_entries dir' file' prefix (map_values h files) (map_values g entries)
        ≡ map_values g (collect_entries dir file prefix files entries)
  unfolding collect_entries map_values
  collect_entries-natural prefix [] entries = refl
  collect_entries-natural prefix ((path, v) ∷ files) entries =
      ap (collect_entries dir' file' prefix (map_values h files))
        (add_file-natural prefix path v entries)
      ∙ collect_entries-natural prefix files (add_file dir file prefix path v entries)

module _ {ℓ κ} {E : Type ℓ} {F : Type κ} (g : E → F) (is_dir : E → Bool) (name : E → Str)
    (is_dir' : F → Bool) (name' : F → Str) (same_kind : (e : E) → is_dir' (g e) ≡ is_dir e)
    (same_name : (e : E) → name' (g e) ≡ name e) where
  insert_entry-natural :
      (e : E) (es : List E)
      → insert_entry is_dir' name' (g e) (map g es) ≡ map g (insert_entry is_dir name e es)
  unfolding insert_entry
  insert_entry-natural e [] = refl
  insert_entry-natural e (x ∷ es) =
      rw (same_kind e, same_name e, same_kind x, same_name x)
        (elim (Bool-cases (entry_leb (is_dir e) (name e) (is_dir x) (name x))) [
          | inl stop ↦ rw stop refl
          | inr on ↦ rw on (ap (λ l. g x ∷ l) (insert_entry-natural e es))
        ])

  pub sort_entries-natural :
      (es : List E) → sort_entries is_dir' name' (map g es) ≡ map g (sort_entries is_dir name es)
  unfolding sort_entries
  sort_entries-natural [] = refl
  sort_entries-natural (e ∷ es) =
      ap (insert_entry is_dir' name' (g e)) (sort_entries-natural es)
      ∙ insert_entry-natural e (sort_entries is_dir name es)
