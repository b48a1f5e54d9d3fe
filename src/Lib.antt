-- ===== src/Lib.antt =====
-- The application server of Veervrat, apps/api, a NestJS service over PostgreSQL by way of Prisma. A
-- person (a vratarthi) walks journeys about virtue sentences, with items to do on each (exposures,
-- resolutions, challenges: "ERC"), guided by mentors (vratmitras) who are assigned to one journey
-- or stand in a global relationship with the person.
--
-- The parts and how they interact. Every request looks up the journey, asks the permission
-- function about the caller and the journey's assignments and relationship, checks the state, and
-- then writes rows and notifications.
-- - Base: Boolean tests and list functions over the native numbers, and the writes of one table as
--   steps (Tables).
-- - Model: the enumerations and tables of apps/api/prisma/schema.prisma (Enums, Rows, Logins), the
--   exceptions of apps/api/src/common/exceptions (Errors), the call of a service as a function of
--   the database that answers or throws (Monad), rules for what holds however a call ends
--   (Outcomes), texts (Texts), and the one query whose answer is open (Queries).
-- - Permissions: apps/api/src/common/permissions. The file is types.ts; Check is
--   has-permission.ts. Stake, Roles and Features are about it.
-- - Journeys: apps/api/src/modules/journeys. The file is journeys.repository.ts; Operations is
--   journeys.service.ts and dormant-journeys.cron.ts. Live is about the unique index, Moves is the
--   abstract life of a journey, Refines, Creation, Dormancy and Requests relate the code to it,
--   Override is about the administrator's exception, Counting about the counts of a journey's page.
-- - Erc: apps/api/src/modules/erc. Pool, Items, Custom and Notes are erc.repository.ts (Notes also
--   custom-erc-reviews.repository.ts), Streaks is resolution-checkins.repository.ts; Operations is
--   erc.service.ts, Checkins is resolution-checkins.service.ts. Moves is the abstract life of an
--   item; Refines, Steps and Requests relate the code to it; Sidenotes is about Notes.
-- - VmRelationships: apps/api/src/modules/vm-relationships. The file is vm-relationships.repository.ts,
--   Operations is vm-relationships.service.ts, Effects is about both.
-- - Invitations: apps/api/src/modules/invitations. The file is invitations.repository.ts with the
--   lookups of users that it needs and the link of open invitations to a new account
--   (apps/api/src/modules/auth/auth.repository.ts); Operations is invitations.service.ts. Moves is
--   the abstract life of an invitation; Steps and Requests relate the code to it; Roles and Grants
--   are about what an acceptance makes.
-- - Moderation: apps/api/src/modules/moderation. The file is moderation.repository.ts, Operations is
--   moderation.service.ts. Decisions is the abstract decision of a review and relates the code to
--   it; Requests is about every run, Promotion about what one decision makes.
-- - Follows: apps/api/src/modules/follows, the repository and the service. Edges is about the
--   table, Requests about every run.
-- - Chats: the ids of rooms of apps/api/src/modules/chats/chats.service.ts; Rooms is about them.
-- - Auth: apps/api/src/modules/auth. Accounts, SessionRows, Tokens and Signups are
--   auth.repository.ts (Signups also consent/outstanding-consents.ts); Lockouts is the part of auth.service.ts that keeps the failed
--   logins in Redis; Outside is what the service takes from outside, with
--   apps/api/src/common/age/age.ts; Operations is the rest of auth.service.ts. Sessions, Attempts,
--   Reset, Renewal, Methods, Consenting, Names and Gate are about them. The session user that every
--   other part takes as an argument is what `validate_session` answers.
-- - Notifications: the list, the marks and the archiving of apps/api/src/modules/notifications, over
--   rows of their own. Pages and Reading are about the list and its cursors.
-- - Tiptap: apps/api/src/common/tiptap/sanitize.ts, the cleaning of rich text. Values are the JSON
--   values, Safe says what a safe document is, Kept, Marks and Cleaned are about the cleaning;
--   PlainText is the text of a document, TextNodes relates it to the text nodes.
-- Each function has the name of the source's method in snake case; a helper `x_found` is what the
-- method `x` does after its lookups.
--
-- Conventions. An id is a number, since the code only compares ids (in Chats, where ids are parts
-- of a room's id, it is a text). A date is a number of
-- milliseconds. The clock and the id that the database gives a new row are arguments. A text is a
-- list of UTF-16 code units. A table is a list of rows; an update or a deletion by primary key
-- changes one row of it. A call is a function of the database, so that calls are served one after
-- the other, and what was written before an exception stays written, because the calls run in no
-- transaction (`approve_and_promote` of the moderation does, and writes all or nothing);
-- `create_journey` also takes what other requests do between its check and its insert, and between
-- an insert that failed and its second lookup. Of the foreign keys those are checked whose row the
-- request has not just read: the sentence and the weakness of a new journey, and the journey of a
-- new assignment. The others name users, who are never deleted but marked, or a row that was read. The
-- connection to the database does not fail, and a request reads the clock once.
-- `findFirst` without an order is a parameter with Prisma's documented answer (Queries). bcrypt,
-- `toLowerCase`, the order of texts and the UTC calendar are the parameter `Env` of Auth, and the
-- clock, ids, random tokens and salt of one call its `Draw`; a token is a number. A hash of Redis is
-- a row that is gone once its time to live is over, and no command of Redis fails. A day of
-- `daysFromNow` has 24 hours, as on a server whose zone has no summer time. A date of birth comes
-- parsed. Nothing runs on fuel: every loop is a recursion on a list, or on the rounds that the
-- source counts; a client that follows cursors makes so many requests as it is given.
--
-- Not modelled: the controllers with their validation, the delivery of notifications, mails, the
-- audit log, the web application, and the services of the other modules (experience logs, the
-- messages of chats, blogs, the catalogue, search, administration). Of journeys the lists findAll
-- and getActivity are left out, of the relationships the two lists of people for display, of the
-- invitations the two reads for the invited person, of the moderation its queue and page, of
-- authentication the private generateUsername, which nothing calls, and the display fields of a
-- profile.
pub mod Base
pub mod Model
pub mod Permissions
pub mod Journeys
pub mod Erc
pub mod VmRelationships
pub mod Invitations
pub mod Moderation
pub mod Follows
pub mod Chats
pub mod Auth
pub mod Notifications
pub mod Tiptap
