-- ===== src/System/Api/LogHandler.antt =====
-- system/backend/internal/api/log_handler.go
use addp.Common.{ℕ, String, Option, none, some, List, if◌then◌else◌, str_eq}
use addp.System.Models.{AuditLog}
use addp.System.Store.{Store, Database}
use addp.System.Logs
use addp.System.Api.{Strconv, Context, Answer, failure, default_query, reply}

-- the user whose entries are asked for: a text that is no number is passed over
unfoldable pub asked_user : Strconv → String → Option ℕ
asked_user conv text = if str_eq text "" then none else conv.parse_uint text

module _ {U T R L : Type 0} (db : Database U T R L) (conv : Strconv) where
  unfoldable pub list : Context → Store U T R L → Answer (List AuditLog) × Store U T R L
  unfolding asked_user
  list c s = elim c.user_id [
    | none ↦ (failure 401, s)
    | some who ↦
        reply 200 (λ e. 500)
          (Logs.list db (conv.atoi (default_query (c.query "page") "1"))
            (conv.atoi (default_query (c.query "page_size") "20"))
            (asked_user conv (default_query (c.query "user_id") "")) who s)
  ]

  unfoldable pub get_by_id : Context → Store U T R L → Answer AuditLog × Store U T R L
  get_by_id c s = elim (conv.parse_uint c.id) [
    | none ↦ (failure 400, s)
    | some id ↦ reply 200 (λ e. 404) (Logs.get_by_id db id s)
  ]
