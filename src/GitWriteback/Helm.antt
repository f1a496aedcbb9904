-- ===== src/GitWriteback/Helm.antt =====
-- internal/gitwriteback/edit.go: `EditHelmValues`.
pub mod Laws
pub mod Twice
use image_updater_operator.Prelude.{Bool, false, ◌||◌, [], Bytes, ◌==◌, if◌then◌else◌}
use image_updater_operator.Prelude.Strings.{split}
use image_updater_operator.Prelude.Result.{Result, ok, err, ◌>>=◌, wrap_err}
use image_updater_operator.GitWriteback.Yaml.{Node}
use image_updater_operator.GitWriteback.Path.{set_by_path}
use image_updater_operator.GitWriteback.Document.{
  YamlLib, EditError, missing_tag_key, bad_path, parse_doc, marshal_if_changed,
}

-- The repository is written if its key is given.
unfoldable pub set_name : Node → Bytes → Bytes → Result EditError (Node × Bool)
set_name root name_key repository =
    if name_key == []
    then ok (root, false)
    else wrap_err bad_path (set_by_path root (split name_key b'.') repository)

-- The two writes, on the parsed document.
unfoldable pub set_image : Node → Bytes → Bytes → Bytes → Bytes → Result EditError (Node × Bool)
set_image root repository tag name_key tag_key = set_name root name_key repository >>= λ (named, c).
    wrap_err bad_path (set_by_path named (split tag_key b'.') tag) >>= λ (tagged, c').
    ok (tagged, c || c')

module _ (Y : YamlLib) where
  unfoldable pub edit_helm_values :
      Bytes → Bytes → Bytes → Bytes → Bytes → Result EditError (Bytes × Bool)
  edit_helm_values content repository tag name_key tag_key =
      if tag_key == []
      then err missing_tag_key
      else parse_doc Y content >>= λ root.
          set_image root repository tag name_key tag_key >>= λ (edited, changed).
          marshal_if_changed Y content edited changed
