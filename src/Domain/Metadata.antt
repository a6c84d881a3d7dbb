-- ===== src/Domain/Metadata.antt =====
-- internal/domain/descriptor_metadata.go: what a descriptor set declares, and its summary. A message that
-- holds messages has its own list of them.
use proto_radar.Prelude.Int.{ℤ}
use proto_radar.Prelude.{
  ℕ, ◌+◌, String, ◌==◌, Bool, List, [], ◌∷◌, length, mem_text, if◌then◌else◌, ◌||◌,
}

pub record ProtoImport : Type 0 where
  pub path : String
  pub is_public : Bool
  pub weak : Bool

pub record ProtoMethod : Type 0 where
  pub name : String
  pub input_type : String
  pub output_type : String
  pub client_streaming : Bool
  pub server_streaming : Bool

pub record ProtoService : Type 0 where
  pub name : String
  pub full_name : String
  pub methods : List ProtoMethod

pub record ProtoEnumValue : Type 0 where
  pub name : String
  pub number : ℤ

pub record ProtoEnum : Type 0 where
  pub name : String
  pub full_name : String
  pub values : List ProtoEnumValue

pub record ProtoField : Type 0 where
  pub name : String
  pub number : ℤ
  pub kind : String
  pub type_name : String
  pub label : String
  pub json_name : String
  pub oneof_name : String
  pub is_repeated : Bool
  pub is_map : Bool

-- The name, the full name, the fields, the nested messages and the enumerations.
mutual
  pub data ProtoMessage : Type 0 where
    proto_message :
        String → String → List ProtoField → ProtoMessages → List ProtoEnum → ProtoMessage

  pub data ProtoMessages : Type 0 where
    no_messages : ProtoMessages
    messages_of : ProtoMessage → ProtoMessages → ProtoMessages

pub record ProtoFile : Type 0 where
  pub path : String
  pub package_name : String
  pub syntax : String
  pub imports : List ProtoImport
  pub services : List ProtoService
  pub messages : ProtoMessages
  pub enums : List ProtoEnum

abbrev pub DescriptorMetadata : Type 0
DescriptorMetadata = List ProtoFile

pub record DescriptorMetadataSummary : Type 0 where
  pub file_count : ℕ
  pub package_count : ℕ
  pub import_count : ℕ
  pub service_count : ℕ
  pub method_count : ℕ
  pub message_count : ℕ
  pub field_count : ℕ
  pub enum_count : ℕ
  pub enum_value_count : ℕ

abbrev pub no_summary : DescriptorMetadataSummary
no_summary = record {
  file_count = 0;
  package_count = 0;
  import_count = 0;
  service_count = 0;
  method_count = 0;
  message_count = 0;
  field_count = 0;
  enum_count = 0;
  enum_value_count = 0;
}

unfoldable pub add_enum_summary :
    List ProtoEnum → DescriptorMetadataSummary → DescriptorMetadataSummary
add_enum_summary [] s = s
add_enum_summary (e ∷ rest) s = add_enum_summary rest (record s {
  enum_count = s.enum_count + 1;
  enum_value_count = s.enum_value_count + length e.values;
})

unfoldable mutual
  unfolding add_enum_summary

  pub add_message_summary : ProtoMessage → DescriptorMetadataSummary → DescriptorMetadataSummary
  add_message_summary (proto_message name full_name fields messages enums) s =
      add_enum_summary enums (
        add_messages_summary messages (record s {
          message_count = s.message_count + 1;
          field_count = s.field_count + length fields;
        }))

  pub add_messages_summary : ProtoMessages → DescriptorMetadataSummary → DescriptorMetadataSummary
  add_messages_summary no_messages s = s
  add_messages_summary (messages_of m rest) s = add_messages_summary rest (add_message_summary m s)

unfoldable pub add_service_summary :
    List ProtoService → DescriptorMetadataSummary → DescriptorMetadataSummary
add_service_summary [] s = s
add_service_summary (service ∷ rest) s = add_service_summary rest (record s {
  service_count = s.service_count + 1;
  method_count = s.method_count + length service.methods;
})

-- The loop over the files; `packages` is the set of their packages so far.
unfoldable pub add_file_summary :
    List String → List ProtoFile → DescriptorMetadataSummary → DescriptorMetadataSummary
unfolding add_enum_summary add_messages_summary add_service_summary
add_file_summary packages [] s = record s { package_count = length packages }
add_file_summary packages (file ∷ rest) s =
    add_file_summary
      (if file.package_name == "" || mem_text file.package_name packages
        then packages
        else file.package_name ∷ packages)
      rest
      (add_enum_summary file.enums (
        add_messages_summary file.messages (
          add_service_summary file.services (record s {
            file_count = s.file_count + 1;
            import_count = s.import_count + length file.imports;
          }))))

unfoldable pub summary : DescriptorMetadata → DescriptorMetadataSummary
unfolding add_file_summary
summary metadata = add_file_summary [] metadata no_summary
