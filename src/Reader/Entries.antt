-- ===== src/Reader/Entries.antt =====
-- The payload that `fetch_remote_metadata` of native/src/installation_reader.cpp writes by hand.
use flatpak_dart.Base.{
  ℕ, suc, subst, ◌+◌, ◌<◌, ◌≡◌, refl, ap, ◌∙◌, List, [], ◌∷◌, ◌++◌, map, Bytes, length, sym,
  append-nil,
}
use flatpak_dart.Beve.Schema.{Elem, object, vector, Fields, end, field}
use flatpak_dart.Beve.Writer.{write_each, write_elem, write_vector}
use flatpak_dart.Beve.Writer.{write_binary, write_number}
use flatpak_dart.Beve.Reader.{addresses, decoded, read_binary}
use flatpak_dart.Beve.RoundTrip.{FieldsFit, read_binary-write_binary}
use flatpak_dart.Wire.Events.{FpMetadataEntry, fp_metadata_entry_fields, fp_metadata_entry_meta}
use flatpak_dart.Reader.Details.{write_entries, entries_payload}

abbrev pub entries_fields : Fields
entries_fields = field (vector (object fp_metadata_entry_fields)) end

write_entries-each :
    (es : List FpMetadataEntry) (buf : Bytes)
    → write_entries es buf
      ≡ write_each
          (write_elem (object fp_metadata_entry_fields))
          (map fp_metadata_entry_meta.row es)
          buf
unfolding write_entries write_each write_elem
write_entries-each [] buf = refl
write_entries-each (e ∷ es) buf = write_entries-each es _

length-map {ℓ κ} :
    {A : Type ℓ} {B : Type κ} (f : A → B) (xs : List A) → length (map f xs) ≡ length xs
length-map f [] = refl
length-map f (x ∷ xs) = ap suc (length-map f xs)

payload_lem :
    (es : List FpMetadataEntry)
    → entries_payload es ≡ write_binary entries_fields (map fp_metadata_entry_meta.row es, tt)
unfolding entries_payload write_binary write_vector
payload_lem es =
    write_entries-each es (write_number 8 (length es) [])
    ∙ ap
        (λ n.
          write_each (write_elem (object fp_metadata_entry_fields))
            (map fp_metadata_entry_meta.row es) (write_number 8 n []))
        (sym (length-map fp_metadata_entry_meta.row es))

-- The hand-written payload is the codec's own encoding of a vector of entries: a reader of that type
-- gets the entries back, in order, wherever they fit the format.
pub read_binary-entries_payload :
    (limit : Elem → ℕ) (es : List FpMetadataEntry) (p : ℕ)
    → FieldsFit limit entries_fields (map fp_metadata_entry_meta.row es, tt)
    → p + length (entries_payload es) < addresses
    → read_binary limit entries_fields (record { p = p; rest = entries_payload es })
      ≡ decoded (map fp_metadata_entry_meta.row es, tt)
read_binary-entries_payload limit es p fits h =
    let row_list = map fp_metadata_entry_meta.row es in
    let e : entries_payload es ≡ write_binary entries_fields (row_list, tt) ++ [] =
      payload_lem es ∙ sym (append-nil (write_binary entries_fields (row_list, tt))) in
    ap (λ bs. read_binary limit entries_fields (record { p = p; rest = bs })) e
    ∙ read_binary-write_binary limit entries_fields (row_list, tt) p [] fits
        (subst (λ bs. p + length bs < addresses) e h)
