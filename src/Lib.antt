-- ===== src/Lib.antt =====
-- OpenNAS: a model of the parts of the API server that decide who may do what, and of the desktop's windows.
--
-- The program is a NAS operating system: a web desktop (apps/web) over an API server (apps/api) that
-- keeps its state in SQLite. A request names a file by a virtual path whose first segment is a shared
-- folder. The path is normalised and mapped into the share's real folder (files/paths.ts); whether the
-- user may read or write there is decided by the share's grants (db/shares.ts, db/groups.ts) and by the
-- folder rules below its root (db/acls.ts), which files/access.ts puts together. An app reaches files
-- through the folders that a user handed to it (db/app-grants.ts), and never further than the user does.
-- Sign-ins that fail lock the account for a while (db/login-attempts.ts) and ban the address (db/ip-bans.ts); a screen in a configured network
-- is signed in without a credential (auth/autologin.ts); and a user who has a password to change or a passkey
-- to enrol reaches nothing else until then (auth/pending.ts). A password with a second factor
-- gives a ticket (db/totp.ts), which a one-time code (auth/totp.ts) or a recovery code turns into a session
-- (db/sessions.ts). An administrator may restrict a user to some apps (db/app-access.ts); apps have tasks run on a
-- timer (db/scheduled-tasks.ts); and other programs sign users in by codes that the server hands out
-- (oidc/store.ts). In the browser the desktop keeps its windows in a store of
-- its own (apps/web/src/store/windows.ts), whose calls and timers interleave.
--
-- Files and what they model, paths from the repository's root:
--   Shares.antt            apps/api/src/db/shares.ts and db/groups.ts: rows, levels, effectiveAccess
--                          Shares/Edits.antt has createShare, updateShare and setMembers
--   Acls.antt              apps/api/src/db/acls.ts: rules, applyFolderAcls, setAcl, deleteAcl, pruneOrphanAcls
--   Files/Paths.antt       apps/api/src/files/paths.ts: normalizeVirtual, virtualSegments, isShareRoot
--   Files/Resolve.antt     the same file: resolveSafe, toVirtual, validateName
--   Files/Access.antt      apps/api/src/files/access.ts: pathAccess
--   AppGrants.antt         apps/api/src/db/app-grants.ts: grantPath, the revocations, resolveGrant
--   LoginAttempts.antt     apps/api/src/db/login-attempts.ts: recordFailure, lockoutRemainingSeconds,
--                          recordSuccess, clearLockout
--   Quotas.antt            apps/api/src/db/shares.ts: ensureQuotaProjectId, deleteShare
--   Autologin.antt         apps/api/src/auth/autologin.ts: autologinConfig, autologinUserFor
--   Pending.antt           apps/api/src/auth/pending.ts: pendingActions, pendingGate
--   Challenges.antt        apps/api/src/db/challenges.ts: putChallenge, takeChallenge
--   Permissions.antt       apps/api/src/db/shares.ts: setPermissions, setGroupPermissions
--   Windows.antt           apps/web/src/store/windows.ts: Windows/Geometry.antt has the rectangles,
--                          Windows/Store.antt and Windows/Layout.antt the operations, Windows/Events.antt
--                          `cycle` and all events as one function
--   Sessions.antt          apps/api/src/db/sessions.ts: createSession, getValidSession and the deletions
--   SecondFactor.antt      SecondFactor/Codes.antt has apps/api/src/auth/totp.ts, SecondFactor/Store.antt
--                          apps/api/src/db/totp.ts and SecondFactor/Login.antt the handler of `/login/totp` in
--                          apps/api/src/auth/routes.ts
--   IpBans.antt            apps/api/src/db/ip-bans.ts: failures by address and bans; IpBans/Addresses.antt has
--                          isBannable and addressInCidr
--   AppAccess.antt         apps/api/src/db/app-access.ts: canUseApp, setAppAccess, forgetApp
--   ScheduledTasks.antt    apps/api/src/db/scheduled-tasks.ts: upsertTask, dueTasks, completeRun and the deletions
--   OidcStore.antt         apps/api/src/oidc/store.ts: authorisation codes and access tokens
--   Passwords.antt         apps/api/src/auth/password.ts: hashPassword, verifyPassword
--   SignIn.antt            SignIn/Password.antt has the handler of `/login/password` in apps/api/src/auth/routes.ts,
--                          SignIn/Account.antt those of `/totp/setup`, `/totp/enable`, `/totp/recovery-codes`,
--                          `/totp/disable` and `/me/password`, and SignIn/Bans.antt apps/api/src/system/auto-ban.ts
--   Firewall.antt          apps/api/src/system/firewall.ts: Firewall/Networks.antt has isValidCidr and
--                          getFirewallConfig, Firewall/Rules.antt generateRuleset; Firewall/Packets.antt says
--                          how nftables reads the lines: sets, chains, policies, rules; the other lines are
--                          texts that decide nothing
--   Qr.antt                apps/api/src/auth/qr.ts: pickVersion, BitWriter and encodeData
-- A function keeps its name, in snake case. Its laws stand in the modules below its own, and
-- the module Tests of each runs the code at concrete inputs.
--
-- Conventions. A table of the database is the list of its rows, in the order in which a query returns
-- them, and a statement of SQL is the list operation that it performs. A text that the code takes apart
-- is the list of its UTF-16 code units; ids, levels and other tags that it only compares are strings.
-- Times are milliseconds as natural numbers. A thrown error is `none` or an error constructor. The
-- functions of Node's `path` module are modelled as POSIX documents them. Recursion is structural
-- everywhere; only `emit`, the inner loop of base32Encode, has fuel, and 2 is enough for it because it starts with
-- at most 12 bits and takes 5 away each time.
--
-- Not modelled: the HTTP routes but those named above, the web desktop but for its windows, the system services (Docker, libvirt, ZFS, nginx,
-- nftables are other programs), storage of secrets, and the joins that only prepare rows for display.
pub mod Base
pub mod Shares
pub mod Acls
pub mod Files
pub mod AppGrants
pub mod LoginAttempts
pub mod Qr
pub mod Quotas
pub mod Autologin
pub mod Pending
pub mod Challenges
pub mod Permissions
pub mod Windows
pub mod Sessions
pub mod SecondFactor
pub mod IpBans
pub mod AppAccess
pub mod ScheduledTasks
pub mod OidcStore
pub mod Passwords
pub mod SignIn
pub mod Firewall
