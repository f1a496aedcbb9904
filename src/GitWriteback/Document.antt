-- ===== src/GitWriteback/Document.antt =====
-- internal/gitwriteback/edit.go: documents read and written through gopkg.in/yaml.v3, which is a
-- parameter.
use image_updater_operator.Prelude.{Bool, true, false, List, [], ◌∷◌, Bytes}
use image_updater_operator.Prelude.Result.{Result, ok, err, ◌>>=◌, wrap_err}
use image_updater_operator.GitWriteback.Yaml.{
  undefined, document, mapping, Node, node, nil, cons, kind_of,
}
use image_updater_operator.GitWriteback.Path.{PathError}

-- The calls of the YAML library. `decode` gives the results of the calls of `Decode` before the
-- end of the input; an encoder holds what it has written.
pub record YamlLib : Type 1 where
  pub unmarshal : Bytes → Result Bytes Node
  pub decode : Bytes → List (Result Bytes Node)
  pub Encoder : Type 0
  pub new_encoder : Encoder
  pub encode : Encoder → Node → Result Bytes Encoder
  pub close : Encoder → Result Bytes Bytes

pub data EditError : Type 0 where
  missing_tag_key : EditError
  parsing : Bytes → EditError
  empty_document : EditError
  not_a_mapping : EditError
  bad_path : PathError → EditError
  encoding : Bytes → EditError
  closing : Bytes → EditError

-- The root of the first document.
unfoldable pub root_of : Node → Result EditError Node
root_of (node undefined tag style value extra content) = err empty_document
root_of (node k tag style value extra nil) = err empty_document
root_of (node k tag style value extra (cons root rest)) = elim (kind_of root) [
  | mapping ↦ ok root
  | _ ↦ err not_a_mapping
]

module _ (Y : YamlLib) where
  unfoldable pub parse_doc : Bytes → Result EditError Node
  parse_doc content = wrap_err parsing (Y.unmarshal content) >>= root_of

  -- The loop over the calls of `Decode`; the first error ends it.
  unfoldable pub collect_docs : List (Result Bytes Node) → Result EditError (List Node)
  collect_docs [] = ok []
  collect_docs (err e ∷ rest) = err (parsing e)
  collect_docs (ok doc ∷ rest) = collect_docs rest >>= λ docs. ok (doc ∷ docs)

  unfoldable pub parse_docs : Bytes → Result EditError (List Node)
  parse_docs content = collect_docs (Y.decode content)

  unfoldable pub encode_docs : Y.Encoder → List Node → Result EditError Y.Encoder
  encode_docs enc [] = ok enc
  encode_docs enc (doc ∷ docs) =
      wrap_err encoding (Y.encode enc doc) >>= λ enc'. encode_docs enc' docs

  unfoldable pub marshal_docs : List Node → Result EditError Bytes
  marshal_docs docs = encode_docs Y.new_encoder docs >>= λ enc. wrap_err closing (Y.close enc)

  -- `&yaml.Node{Kind: yaml.DocumentNode, Content: []*yaml.Node{root}}`
  abbrev pub document_of : Node → Node
  document_of root = node document [] 0 [] [] (cons root nil)

  unfoldable pub marshal_if_changed : Bytes → Node → Bool → Result EditError (Bytes × Bool)
  marshal_if_changed orig root false = ok (orig, false)
  marshal_if_changed orig root true = marshal_docs (document_of root ∷ []) >>= λ out. ok (out, true)
