-- ===== src/Identity/Entry.antt =====
-- What `register` and `login` of apps/api/src/modules/identity/identity.service.ts let in.
use eventory.Common.{nat_eq, text_eq}
