-- ===== src/Api/ScanConfig/Handlers.antt =====
-- internal/api/handler.go: the handlers of the scan settings and of the MIME types.
use i_filter_imitation.Common.{
  List, [], Bool, false, ◌||◌, Option, none, some, if◌then◌else◌, Text, codes, text_eq, trim_space,
}
use i_filter_imitation.Api.Response.{Response, json_ok, json_error, no_body}
use i_filter_imitation.Api.ScanConfig.{
  MimeType, Setting, ScanStore, Statements, Answer, saved, saved_mime, not_found, failed,
  update_scan_setting, update_mime_type,
}

pub record SettingBody : Type 0 where
  pub key : Text
  pub value : Text
  pub actor : Text

pub record MimeBody : Type 0 where
  pub enabled : Option Bool
  pub note : Text
  pub actor : Text

abbrev pub setting_response : Answer → Response MimeType
setting_response saved = record { status = 204; body = no_body }
setting_response (saved_mime t) = json_error (codes "internal error") 500
setting_response not_found = json_error (codes "setting key not found") 404
setting_response failed = json_error (codes "internal error") 500

unfoldable pub handle_patch_scan_setting :
    Statements → Option SettingBody → ScanStore → Response MimeType × ScanStore
unfolding text_eq update_scan_setting
handle_patch_scan_setting on none s = (json_error (codes "invalid JSON") 400, s)
handle_patch_scan_setting on (some b) s =
    let r = update_scan_setting on b.key b.value b.actor s in
    if text_eq b.key [] || text_eq b.value []
    then (json_error (codes "key and value are required") 400, s)
    else (setting_response r.0, r.1)

abbrev pub mime_response : Answer → Response MimeType
mime_response (saved_mime t) = json_ok t
mime_response saved = json_error (codes "internal error") 500
mime_response not_found = json_error (codes "pattern not found") 404
mime_response failed = json_error (codes "internal error") 500

abbrev pub no_change : MimeBody → Bool
no_change b = elim b.enabled [ some _ ↦ false | none ↦ text_eq b.note [] ]

-- `handlePatchMimeType` from the decoding of the body on
unfoldable pub mime_body :
    Statements → Text → Option MimeBody → ScanStore → Response MimeType × ScanStore
unfolding text_eq update_mime_type
mime_body on p none s = (json_error (codes "invalid JSON") 400, s)
mime_body on p (some b) s =
    let r = update_mime_type on p b.enabled b.note b.actor s in
    if no_change b
    then (json_error (codes "at least one of enabled or note is required") 400, s)
    else (mime_response r.0, r.1)

-- The pattern of the path, or none where it cannot be unescaped.
unfoldable pub handle_patch_mime_type :
    Statements → Option Text → Option MimeBody → ScanStore → Response MimeType × ScanStore
unfolding text_eq trim_space mime_body
handle_patch_mime_type on none body s = (json_error (codes "invalid pattern") 400, s)
handle_patch_mime_type on (some p) body s =
    let r = mime_body on p body s in
    if text_eq (trim_space p) [] then (json_error (codes "invalid pattern") 400, s) else r

pub data ScanCall : Type 0 where
  patch_setting : Option SettingBody → ScanCall
  patch_mime : Option Text → Option MimeBody → ScanCall

unfoldable pub handle_scan : Statements → ScanCall → ScanStore → Response MimeType × ScanStore
unfolding handle_patch_scan_setting handle_patch_mime_type
handle_scan on (patch_setting b) s = handle_patch_scan_setting on b s
handle_scan on (patch_mime p b) s = handle_patch_mime_type on p b s

-- GET of the settings, with the rows that the query returns, or none for an error of the database.
unfoldable pub handle_get_scan_settings : Option (List Setting) → Response (List Setting)
handle_get_scan_settings none = json_error (codes "internal error") 500
handle_get_scan_settings (some rows) = json_ok rows
