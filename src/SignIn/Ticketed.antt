-- ===== src/SignIn/Ticketed.antt =====
-- A password and then a code.
use opennas.Base.{nat_eq, string_eq, list_eq}
