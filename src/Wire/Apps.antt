-- ===== src/Wire/Apps.antt =====
-- native/include/flatpak_types.h: what is posted about refs, applications and instances.
use flatpak_dart.Base.{ℕ, Bool, Bytes, refl}
use flatpak_dart.Beve.Schema.{Fields, end, field, flag, plain, object}
use flatpak_dart.Wire.Reflect.{Reflectable, txt, word}

-- A ref of an application or a runtime.
pub record FpRef : Type 0 where
  pub kind : Bytes
  pub name : Bytes
  pub arch : Bytes
  pub branch : Bytes
  pub commit : Bytes
  pub collection_id : Bytes

abbrev pub fp_ref_fields : Fields
fp_ref_fields = field txt (field txt (field txt (field txt (field txt (field txt end)))))

instance abbrev pub fp_ref_meta : Reflectable FpRef
fp_ref_meta = record {
  fields = fp_ref_fields;
  row = λ x. (x.kind, (x.name, (x.arch, (x.branch, (x.commit, (x.collection_id, tt))))));
  unrow = λ v. record {
    kind = v.0;
    name = v.1.0;
    arch = v.1.1.0;
    branch = v.1.1.1.0;
    commit = v.1.1.1.1.0;
    collection_id = v.1.1.1.1.1.0;
  };
  unrow-row = λ x. refl;
}

-- An installed application.
pub record InstalledApp : Type 0 where
  pub ref : FpRef
  pub origin : Bytes
  pub latest_commit : Bytes
  pub installed_path : Bytes
  pub installed_size : ℕ
  pub is_current_arch : Bool
  pub end_of_life : Bool
  pub end_of_life_rebase : Bytes
  pub app_data_name : Bytes
  pub app_data_summary : Bytes
  pub app_data_version : Bytes
  pub app_data_icon : Bytes

abbrev pub installed_app_fields : Fields
installed_app_fields = field (plain (object fp_ref_fields)) (
    field txt (
      field txt (
        field txt (
          field (word 8) (
            field flag
              (field flag (field txt (field txt (field txt (field txt (field txt end)))))))))))

instance abbrev pub installed_app_meta : Reflectable InstalledApp
installed_app_meta = record {
  fields = installed_app_fields;
  row = λ x. (
    fp_ref_meta.row x.ref,
    (
      x.origin,
      (
        x.latest_commit,
        (
          x.installed_path,
          (
            x.installed_size,
            (
              x.is_current_arch,
              (
                x.end_of_life,
                (
                  x.end_of_life_rebase,
                  (
                    x.app_data_name,
                    (x.app_data_summary, (x.app_data_version, (x.app_data_icon, tt))),
                  ),
                ),
              ),
            ),
          ),
        ),
      ),
    ),
  );
  unrow = λ v. record {
    ref = fp_ref_meta.unrow v.0;
    origin = v.1.0;
    latest_commit = v.1.1.0;
    installed_path = v.1.1.1.0;
    installed_size = v.1.1.1.1.0;
    is_current_arch = v.1.1.1.1.1.0;
    end_of_life = v.1.1.1.1.1.1.0;
    end_of_life_rebase = v.1.1.1.1.1.1.1.0;
    app_data_name = v.1.1.1.1.1.1.1.1.0;
    app_data_summary = v.1.1.1.1.1.1.1.1.1.0;
    app_data_version = v.1.1.1.1.1.1.1.1.1.1.0;
    app_data_icon = v.1.1.1.1.1.1.1.1.1.1.1.0;
  };
  unrow-row = λ x. refl;
}

-- A running instance. A pid is the bit pattern of an int32_t.
pub record FpInstance : Type 0 where
  pub app_id : Bytes
  pub instance_id : Bytes
  pub arch : Bytes
  pub branch : Bytes
  pub commit : Bytes
  pub runtime : Bytes
  pub pid : ℕ
  pub child_pid : ℕ
  pub is_running : Bool

abbrev pub fp_instance_fields : Fields
fp_instance_fields = field txt (
    field txt (
      field txt
        (field txt (field txt (field txt (field (word 4) (field (word 4) (field flag end))))))))

instance abbrev pub fp_instance_meta : Reflectable FpInstance
fp_instance_meta = record {
  fields = fp_instance_fields;
  row = λ x. (
    x.app_id,
    (
      x.instance_id,
      (x.arch, (x.branch, (x.commit, (x.runtime, (x.pid, (x.child_pid, (x.is_running, tt))))))),
    ),
  );
  unrow = λ v. record {
    app_id = v.0;
    instance_id = v.1.0;
    arch = v.1.1.0;
    branch = v.1.1.1.0;
    commit = v.1.1.1.1.0;
    runtime = v.1.1.1.1.1.0;
    pid = v.1.1.1.1.1.1.0;
    child_pid = v.1.1.1.1.1.1.1.0;
    is_running = v.1.1.1.1.1.1.1.1.0;
  };
  unrow-row = λ x. refl;
}
