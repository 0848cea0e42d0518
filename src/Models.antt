-- ===== src/Models.antt =====
-- The tables: prorag/models.py. A column of a UUID or an integer key is a number, since ids are
-- only compared; a point in time is a number of microseconds; embeddings are of any type.
-- Columns that no modelled operation reads are left out.
use pro_rag.Prelude.{ℕ, Bool, Option, List, Text}

-- `Document.status`
pub data Status : Type 0 where
  pending processing ready failed : Status

pub record Document : Type 0 where
  pub id : ℕ
  -- the digest of the file's bytes
  pub sha256 : ℕ
  pub filename : Text
  pub page_count : Option ℕ
  pub title : Option Text
  pub title_norm : Option Text
  pub collection : Text
  pub status : Status
  pub error : Option Text

-- `Chunk.kind`
pub data Kind : Type 0 where
  prose row table_window table_summary : Kind

pub record Chunk (V F : Type 0) : Type 0 where
  pub id : ℕ
  pub doc_id : ℕ
  pub ord : ℕ
  pub kind : Kind
  pub text : Text
  pub embed_text : Text
  pub page_start : Option ℕ
  pub page_end : Option ℕ
  pub bbox : Option (List F)
  pub table_id : Option ℕ
  pub token_count : ℕ
  pub embedding : V

-- One `table_rows` row; what it holds is of any type.
pub record TableRow (D : Type 0) : Type 0 where
  pub table_id : ℕ
  pub row_no : ℕ
  pub row_values : D

pub record User : Type 0 where
  pub id : ℕ
  pub external_subject : Option Text
  pub email : Text
  pub display_name : Option Text
  pub is_admin : Bool
  pub password_hash : Option Text
  pub daily_cap_usd_override : Option ℕ
  pub disabled_at : Option ℕ

pub data GroupSource : Type 0 where
  local idp : GroupSource

pub record Group : Type 0 where
  pub id : ℕ
  pub name : Text
  pub source : GroupSource
  pub external_id : Option Text

pub record UserGroup : Type 0 where
  pub user_id : ℕ
  pub group_id : ℕ

-- `document_acl.principal_type`
pub data PrincipalType : Type 0 where
  public user group : PrincipalType

-- `document_acl.source`: 'local', or 'rule:{id}'.
pub data AclSource : Type 0 where
  by_hand : AclSource
  by_rule : ℕ → AclSource

pub record DocumentAcl : Type 0 where
  pub doc_id : ℕ
  pub principal_type : PrincipalType
  pub principal_id : Option ℕ
  pub source : AclSource

-- The tables that decide who sees what.
pub record Acl : Type 0 where
  pub user_groups : List UserGroup
  pub document_acl : List DocumentAcl
