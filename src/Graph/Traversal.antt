-- ===== src/Graph/Traversal.antt =====
-- internal/usecase/dependencygraph/service.go, resolveDependencies: its loops.
use proto_radar.Prelude.{
  String, ◌==◌, sym, subst, Bool, List, [], ◌∷◌, ◌++◌, inl, inr, Bool-cases, trim_space,
  if◌then◌else◌,
}
use proto_radar.Domain.Dependencies.{DependencySource}
use proto_radar.Domain.Metadata.{
  ProtoImport, ProtoMethod, ProtoService, ProtoField, ProtoMessage, proto_message, ProtoMessages,
  no_messages, messages_of, ProtoFile,
}
use proto_radar.Store.World.{done, ◌>>=◌}
use proto_radar.Graph.Providers.{ProviderIndex, normalize_symbol}
use proto_radar.Graph.Resolving.{
  Consumer, Reference, for_each, Step, symbol_reference, resolve_import, resolve_field,
  resolve_symbol_reference, resolve_message_references, resolve_messages_references, resolve_method,
  resolve_service, resolve_file,
}
use proto_radar.Graph.References.{
  concat_map, import_references, field_references, message_references, messages_references,
  method_references, service_references, file_references, references,
}
use proto_radar.Graph.Steps.{resolve_one}

-- What holds of doing nothing, of two steps in a row and of one reference holds of the whole traversal.
module _ (consumer : Consumer) (index : ProviderIndex) (R : List Reference → Step → Type 0)
    (R-done : R [] (λ s. done s))
    (R-then : (refs more : List Reference) (f g : Step)
      → R refs f
      → R more g
      → R (refs ++ more) (λ s. f s >>= g))
    (R-one : (r : Reference) → R (r ∷ []) (resolve_one consumer index r)) where
  for_each-R :
      {A : Type 0} (refs : A → List Reference) (f : A → Step)
      → ((a : A) → R (refs a) (f a))
      → (xs : List A) → R (concat_map refs xs) (for_each f xs)
  unfolding for_each
  for_each-R refs f h [] = R-done
  for_each-R refs f h (x ∷ xs) =
      R-then (refs x) (concat_map refs xs) (f x) (for_each f xs) (h x) (for_each-R refs f h xs)

  import-R : (i : ProtoImport) → R (import_references i) (resolve_import consumer index i)
  unfolding resolve_import
  import-R i = R-one _

  type-R :
      (symbol : String)
      → R
          (symbol_reference DependencySource.type_reference (normalize_symbol symbol) ∷ [])
          (resolve_symbol_reference consumer index DependencySource.type_reference symbol)
  unfolding resolve_symbol_reference
  type-R symbol = R-one _

  method_type-R :
      (symbol : String)
      → R
          (symbol_reference DependencySource.method_reference (normalize_symbol symbol) ∷ [])
          (resolve_symbol_reference consumer index DependencySource.method_reference symbol)
  unfolding resolve_symbol_reference
  method_type-R symbol = R-one _

  abbrev FieldClaim : ProtoField → Bool → Type 0
  FieldClaim f blank =
      R
        (if blank
          then []
          else symbol_reference DependencySource.type_reference (normalize_symbol f.type_name) ∷ [])
        (λ s.
          if blank
          then done s
          else resolve_symbol_reference consumer index DependencySource.type_reference f.type_name
              s)

  field-R : (f : ProtoField) → R (field_references f) (resolve_field consumer index f)
  unfolding resolve_field
  field-R f = elim (Bool-cases (trim_space f.type_name == "")) [
    | inl blank ↦ subst (FieldClaim f) (sym blank) R-done
    | inr named ↦ subst (FieldClaim f) (sym named) (type-R f.type_name)
  ]

  mutual
    unfolding resolve_message_references message_references

    message-R :
        (m : ProtoMessage) → R (message_references m) (resolve_message_references consumer index m)
    message-R (proto_message name full_name fields messages enums) =
        R-then (concat_map field_references fields) (messages_references messages)
          (for_each (resolve_field consumer index) fields)
          (resolve_messages_references consumer index messages)
          (for_each-R field_references (resolve_field consumer index) field-R fields)
          (messages-R messages)

    messages-R :
        (ms : ProtoMessages)
        → R (messages_references ms) (resolve_messages_references consumer index ms)
    messages-R no_messages = R-done
    messages-R (messages_of m rest) =
        R-then (message_references m) (messages_references rest)
          (resolve_message_references consumer index m)
          (resolve_messages_references consumer index rest) (message-R m) (messages-R rest)

  method-R : (m : ProtoMethod) → R (method_references m) (resolve_method consumer index m)
  unfolding resolve_method
  method-R m =
      R-then
        (symbol_reference DependencySource.method_reference (normalize_symbol m.input_type) ∷ []) _
        (resolve_symbol_reference consumer index DependencySource.method_reference m.input_type)
        (resolve_symbol_reference consumer index DependencySource.method_reference m.output_type)
        (method_type-R m.input_type) (method_type-R m.output_type)

  service-R : (s : ProtoService) → R (service_references s) (resolve_service consumer index s)
  unfolding resolve_service
  service-R s = for_each-R method_references (resolve_method consumer index) method-R s.methods

  file-R : (f : ProtoFile) → R (file_references f) (resolve_file consumer index f)
  unfolding resolve_file file_references
  file-R f =
      R-then (concat_map import_references f.imports ++ messages_references f.messages) _
        (λ s.
          for_each (resolve_import consumer index) f.imports s
          >>= resolve_messages_references consumer index f.messages)
        (for_each (resolve_service consumer index) f.services)
        (R-then (concat_map import_references f.imports) _
          (for_each (resolve_import consumer index) f.imports)
          (resolve_messages_references consumer index f.messages)
          (for_each-R import_references (resolve_import consumer index) import-R f.imports)
          (messages-R f.messages))
        (for_each-R service_references (resolve_service consumer index) service-R f.services)

  pub traversal :
      (metadata : List ProtoFile)
      → R (references metadata) (for_each (resolve_file consumer index) metadata)
  unfolding references
  traversal metadata = for_each-R file_references (resolve_file consumer index) file-R metadata
