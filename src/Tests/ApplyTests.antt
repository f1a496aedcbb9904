-- ===== src/Tests/ApplyTests.antt =====
-- internal/gitwriteback/apply.go, git.go and `ParseTarget` on a file system with one file, which
-- holds the tag of a values file.
use image_updater_operator.Prelude.{
  ◌≡◌, ◌≢◌, refl, ◌⊎◌, true, false, none, some, [], ◌++◌, Bytes, codes, cut_prefix, arith,
  Bytes-discrete,
}
use image_updater_operator.Prelude.Strings.{split}
use image_updater_operator.Prelude.Result.{Result, ok, err}
use image_updater_operator.GitWriteback.Yaml.{
  document, node, nil, cons, mapping_value, find_value, upsert_scalar, overwrite, set_mapping_value,
  set_value,
}
use image_updater_operator.GitWriteback.Path.{set_by_path, set_leaf, child}
use image_updater_operator.GitWriteback.Helm.{edit_helm_values, set_image, set_name}
use image_updater_operator.GitWriteback.Target.{
  Target, target_helm, target_kustomize, cut, is_target_kind, parse_target,
}
use image_updater_operator.GitWriteback.Target.Laws.{target_text, parse_target-target_text}
use image_updater_operator.GitWriteback.Document.{
  YamlLib, parse_doc, root_of, marshal_if_changed, marshal_docs, encode_docs,
}
use image_updater_operator.GitWriteback.Apply.{
  FileLib, Edit, is_outside, starts_above, target_file, apply, prepare, edit_content, save,
  file_mode,
}
use image_updater_operator.GitWriteback.Apply.Outcome.{
  IsTargetFile, target_file-IsTargetFile, IsWrite, apply_sound,
}
use image_updater_operator.GitWriteback.Auth.{SshLib}
use image_updater_operator.Tests.WritebackTests.{values}

abbrev below : Bytes → Bytes → Result Bytes Bytes
below root path = elim (cut_prefix path (root ++ codes "/")) [
  | none ↦ err (codes "not below the root")
  | some rest ↦ ok rest
]

abbrev pub one_file : FileLib
one_file = record {
  Files = Bytes;
  join = λ dir name. dir ++ codes "/" ++ name;
  clean = λ path. path;
  rel = below;
  is_abs = λ path. false;
  stat = λ fs path. some 420;
  read_file = λ fs path. ok fs;
  write_file = λ fs path content mode. (content, none);
}

abbrev pub one_document : YamlLib
one_document = record {
  unmarshal = λ content. ok (node document [] 0 [] [] (cons (values content) nil));
  decode = λ content. [];
  Encoder = Bytes;
  new_encoder = [];
  encode = λ enc doc. ok (enc ++ codes "2.0");
  close = λ enc. ok enc;
}

abbrev pub helm_target : Target
helm_target = record { kind = codes "helm"; path = codes "values.yaml" }

abbrev edit : Edit
edit = record {
  target = helm_target;
  repository = codes "app";
  tag = codes "2.0";
  container = [];
  helm_name_key = [];
  helm_tag_key = codes "image.tag";
}

abbrev pub keys : SshLib
keys = record {
  PublicKeys = Bytes;
  Callback = Bytes;
  new_public_keys = λ user key passphrase. ok key;
  new_known_hosts_callback = ok (codes "machine");
}

helm_target_parsed : parse_target (codes "helm:values.yaml") ≡ ok helm_target
unfolding parse_target cut Bytes-discrete target_helm
helm_target_parsed = refl

helm_target_file :
    target_file one_file (codes "1.0") (codes "/tmp/repo") helm_target
    ≡ ok (codes "/tmp/repo/values.yaml")
unfolding target_file is_outside cut_prefix Bytes-discrete starts_above target_kustomize
helm_target_file = refl

tag_written :
    apply one_file one_document (codes "1.0") (codes "/tmp/repo") edit
    ≡ (codes "2.0", ok (codes "values.yaml", true))
unfolding apply prepare target_file is_outside cut_prefix Bytes-discrete starts_above
    target_kustomize edit_content target_helm edit_helm_values parse_doc root_of set_image set_name
    set_by_path set_leaf child mapping_value find_value upsert_scalar overwrite set_mapping_value
    set_value split marshal_if_changed marshal_docs encode_docs save file_mode
tag_written = refl

helm_is_kind : is_target_kind (codes "helm") ≡ true
unfolding Bytes-discrete target_helm
helm_is_kind = refl

parse_target-target_text_example : parse_target (target_text helm_target) ≡ ok helm_target
parse_target-target_text_example = parse_target-target_text helm_target helm_is_kind (ground arith)

target_file-IsTargetFile_example :
    IsTargetFile one_file
      (codes "1.0")
      (codes "/tmp/repo/values.yaml")
      (codes "/tmp/repo/values.yaml")
    × ((path : Bytes) × (below (codes "/tmp/repo") (codes "/tmp/repo/values.yaml") ≡ ok path)
        × (path ≢ codes "..")
        × (false ≡ false)
        × (starts_above path ≡ false))
target_file-IsTargetFile_example =
    target_file-IsTargetFile one_file (codes "1.0") (codes "/tmp/repo") helm_target
      (codes "/tmp/repo/values.yaml") helm_target_file

apply_sound_example :
    (true ≡ false) × (codes "values.yaml" ≡ []) × (codes "2.0" ≡ codes "1.0")
    ⊎ ((true ≡ true)
        × IsWrite one_file one_document
            (codes "1.0")
            (codes "/tmp/repo")
            edit
            (codes "2.0")
            (codes "values.yaml"))
apply_sound_example =
    apply_sound one_file one_document (codes "1.0") (codes "2.0") (codes "/tmp/repo") edit
      (codes "values.yaml") true tag_written
