-- ===== src/Wire/Events.antt =====
-- native/include/flatpak_types.h: progress events, installations and metadata entries.
use flatpak_dart.Base.{ℕ, Bool, Bytes, refl}
use flatpak_dart.Beve.Schema.{Fields, end, field, flag}
use flatpak_dart.Wire.Reflect.{Reflectable, txt, word}

-- One progress event of a transaction.
pub record TransactionProgress : Type 0 where
  pub op : Bytes
  pub ref : Bytes
  pub progress : ℕ
  pub bytes_transferred : ℕ
  pub bytes_total : ℕ
  pub status : Bytes

abbrev pub transaction_progress_fields : Fields
transaction_progress_fields =
    field txt (field txt (field (word 4) (field (word 8) (field (word 8) (field txt end)))))

instance abbrev pub transaction_progress_meta : Reflectable TransactionProgress
transaction_progress_meta = record {
  fields = transaction_progress_fields;
  row = λ x. (x.op, (x.ref, (x.progress, (x.bytes_transferred, (x.bytes_total, (x.status, tt))))));
  unrow = λ v. record {
    op = v.0;
    ref = v.1.0;
    progress = v.1.1.0;
    bytes_transferred = v.1.1.1.0;
    bytes_total = v.1.1.1.1.0;
    status = v.1.1.1.1.1.0;
  };
  unrow-row = λ x. refl;
}

-- A configured installation.
pub record FpInstallationInfo : Type 0 where
  pub id : Bytes
  pub display_name : Bytes
  pub path : Bytes
  pub is_user : Bool
  pub priority : ℕ

abbrev pub fp_installation_info_fields : Fields
fp_installation_info_fields = field txt (field txt (field txt (field flag (field (word 4) end))))

instance abbrev pub fp_installation_info_meta : Reflectable FpInstallationInfo
fp_installation_info_meta = record {
  fields = fp_installation_info_fields;
  row = λ x. (x.id, (x.display_name, (x.path, (x.is_user, (x.priority, tt)))));
  unrow = λ v. record {
    id = v.0;
    display_name = v.1.0;
    path = v.1.1.0;
    is_user = v.1.1.1.0;
    priority = v.1.1.1.1.0;
  };
  unrow-row = λ x. refl;
}

-- One key of a metadata keyfile.
pub record FpMetadataEntry : Type 0 where
  pub section : Bytes
  pub key : Bytes
  pub value : Bytes

abbrev pub fp_metadata_entry_fields : Fields
fp_metadata_entry_fields = field txt (field txt (field txt end))

instance abbrev pub fp_metadata_entry_meta : Reflectable FpMetadataEntry
fp_metadata_entry_meta = record {
  fields = fp_metadata_entry_fields;
  row = λ x. (x.section, (x.key, (x.value, tt)));
  unrow = λ v. record { section = v.0; key = v.1.0; value = v.1.1.0 };
  unrow-row = λ x. refl;
}
