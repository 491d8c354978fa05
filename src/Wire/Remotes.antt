-- ===== src/Wire/Remotes.antt =====
-- native/include/flatpak_types.h: remotes, and the changes that Dart asks of them.
use flatpak_dart.Base.{ℕ, Bool, List, Bytes, refl}
use flatpak_dart.Beve.Schema.{Fields, end, field, flag, vector, number}
use flatpak_dart.Wire.Reflect.{Reflectable, txt, word}

-- A configured remote.
pub record FlatpakRemoteInfo : Type 0 where
  pub name : Bytes
  pub url : Bytes
  pub title : Bytes
  pub comment : Bytes
  pub description : Bytes
  pub homepage : Bytes
  pub default_branch : Bytes
  pub subset : Bytes
  pub collection_id : Bytes
  pub filter : Bytes
  pub remote_type : ℕ
  pub disabled : Bool
  pub gpg_verify : Bool
  pub no_deps : Bool
  pub priority : ℕ

abbrev pub flatpak_remote_info_fields : Fields
flatpak_remote_info_fields = field txt (
    field txt (
      field txt (
        field txt (
          field txt (
            field txt (
              field txt (
                field txt (
                  field txt (
                    field txt (
                      field (word 4)
                        (field flag (field flag (field flag (field (word 4) end))))))))))))))

instance abbrev pub flatpak_remote_info_meta : Reflectable FlatpakRemoteInfo
flatpak_remote_info_meta = record {
  fields = flatpak_remote_info_fields;
  row = λ x. (
    x.name,
    (
      x.url,
      (
        x.title,
        (
          x.comment,
          (
            x.description,
            (
              x.homepage,
              (
                x.default_branch,
                (
                  x.subset,
                  (
                    x.collection_id,
                    (
                      x.filter,
                      (x.remote_type, (x.disabled, (x.gpg_verify, (x.no_deps, (x.priority, tt))))),
                    ),
                  ),
                ),
              ),
            ),
          ),
        ),
      ),
    ),
  );
  unrow = λ v. record {
    name = v.0;
    url = v.1.0;
    title = v.1.1.0;
    comment = v.1.1.1.0;
    description = v.1.1.1.1.0;
    homepage = v.1.1.1.1.1.0;
    default_branch = v.1.1.1.1.1.1.0;
    subset = v.1.1.1.1.1.1.1.0;
    collection_id = v.1.1.1.1.1.1.1.1.0;
    filter = v.1.1.1.1.1.1.1.1.1.0;
    remote_type = v.1.1.1.1.1.1.1.1.1.1.0;
    disabled = v.1.1.1.1.1.1.1.1.1.1.1.0;
    gpg_verify = v.1.1.1.1.1.1.1.1.1.1.1.1.0;
    no_deps = v.1.1.1.1.1.1.1.1.1.1.1.1.1.0;
    priority = v.1.1.1.1.1.1.1.1.1.1.1.1.1.1.0;
  };
  unrow-row = λ x. refl;
}

-- The changes to a remote: the bit pattern of -1 means "leave unchanged" for the last four.
pub record RemoteConfig : Type 0 where
  pub url : Bytes
  pub title : Bytes
  pub comment : Bytes
  pub homepage : Bytes
  pub default_branch : Bytes
  pub gpg_key_data : List ℕ
  pub subset : Bytes
  pub collection_id : Bytes
  pub filter : Bytes
  pub priority : ℕ
  pub gpg_verify : ℕ
  pub disabled : ℕ
  pub no_deps : ℕ

abbrev pub remote_config_fields : Fields
remote_config_fields = field txt (
    field txt (
      field txt (
        field txt (
          field txt (
            field (vector (number 1)) (
              field txt (
                field txt (
                  field txt
                    (field (word 4) (field (word 1) (field (word 1) (field (word 1) end))))))))))))

instance abbrev pub remote_config_meta : Reflectable RemoteConfig
remote_config_meta = record {
  fields = remote_config_fields;
  row = λ x. (
    x.url,
    (
      x.title,
      (
        x.comment,
        (
          x.homepage,
          (
            x.default_branch,
            (
              x.gpg_key_data,
              (
                x.subset,
                (
                  x.collection_id,
                  (x.filter, (x.priority, (x.gpg_verify, (x.disabled, (x.no_deps, tt))))),
                ),
              ),
            ),
          ),
        ),
      ),
    ),
  );
  unrow = λ v. record {
    url = v.0;
    title = v.1.0;
    comment = v.1.1.0;
    homepage = v.1.1.1.0;
    default_branch = v.1.1.1.1.0;
    gpg_key_data = v.1.1.1.1.1.0;
    subset = v.1.1.1.1.1.1.0;
    collection_id = v.1.1.1.1.1.1.1.0;
    filter = v.1.1.1.1.1.1.1.1.0;
    priority = v.1.1.1.1.1.1.1.1.1.0;
    gpg_verify = v.1.1.1.1.1.1.1.1.1.1.0;
    disabled = v.1.1.1.1.1.1.1.1.1.1.1.0;
    no_deps = v.1.1.1.1.1.1.1.1.1.1.1.1.0;
  };
  unrow-row = λ x. refl;
}
