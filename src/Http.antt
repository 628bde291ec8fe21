-- ===== src/Http.antt =====
-- What the program uses of net/http: headers, and http.ResponseWriter as the calls that it gets. A
-- guarded writer is the `responseState` of recovery.go around another writer.
pub mod Header
pub mod Writer
pub mod StatusText
pub mod Request
