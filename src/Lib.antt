-- ===== src/Lib.antt =====
-- OmniTun: the client side of the tunnel service, the web application (web/) and the
-- administration (admin/).
--
-- Parts and files:
--   Prelude: Boolean tests, lists over the native numbers, dictionaries, integers, lists of
--     texts as sets (Prelude.Sets), and texts split at a character (Prelude.Split).
--   Js: the JavaScript values that the code reads (JSON values, property access,
--     truthiness, ?? and ||), and Js, the record of the browser's own functions (atob,
--     JSON.parse, JSON.stringify and so on), which what calls them takes as a parameter.
--   Token: web/src/lib/auth.ts and admin/src/lib/auth.ts. Token.Defs has the functions
--     with the keys of the application as a parameter, Token.Apps their two copies.
--   Api: web/src/lib/api.ts and admin/src/lib/api.ts. Api.Http has requests, replies and
--     the state (the client's token and the localStorage), Api.Client the methods of
--     ApiClient, Api.Apps the two copies. Api.Refresh is the sharing of one refresh
--     between concurrent calls (refreshPromise) as a step relation.
--   Store: web/src/store/auth.ts (Store.Defs) and admin/src/store/auth.ts (Store.Admin),
--     the actions over the API client. Store.Accounts is what it promises its readers.
--   Socket: web/src/lib/websocket.ts. Socket.Connection is the state, reconnecting and
--     closing, as a step relation; Socket.Routing is the handler registry and delivery.
--     Socket.Hook is web/src/hooks/useWebSocket.ts.
--   Notifications: web/src/hooks/useNotifications.ts, the list that the module keeps and
--     the copy that each mounted component shows.
--   Types: the records of web/src/lib/types.ts that the modelled pages read.
--   Palette: web/src/components/CommandPalette.tsx: Palette.Matching is fuzzyMatch,
--     Palette.Results the results and their groups, Palette.Keys the keyboard.
--   Queries: web/src/hooks/useTunnels.ts and web/src/hooks/useNetworks.ts: the request and
--     the invalidated keys of every query and mutation.
--   TunnelsPage: web/src/pages/Tunnels.tsx: Listing has the filter, pages, selection and
--     batch calls, Filling the form of a new tunnel, Creating its submission and the deletion.
--   Forms: web/src/pages/Login.tsx and web/src/pages/Register.tsx,
--     with admin/src/pages/Login.tsx: Forms.Checks has the regular expressions and the
--     strength of a password, Forms.Defs the submission. Forms.Password is
--     web/src/pages/ResetPassword.tsx and web/src/pages/ForgotPassword.tsx.
--   Inspect: web/src/pages/TunnelInspect.tsx: the entries of the live traffic, Inspect.Feed its
--     socket with the timer, Inspect.Replaying the made-up entries and what is copied and replayed.
--   Copying: the buttons of web/src/pages that copy a text and show a mark for two seconds.
--   Onboarding: web/src/pages/Onboarding.tsx: Onboarding.Defs has the page, Onboarding.Steps
--     the moves of the user and the replies of the server, Onboarding.Slug is about slugify.
--   Dialogs: web/src/components/ui/Dialog.tsx: the dialogs of a component, with the document and the
--     effect of web/src/components/CommandPalette.tsx on it.
--   Theme: web/src/components/ThemeToggle.tsx with the storage and the document.
--   Toasts: web/src/components/ui/ToastProvider.tsx and useToast.tsx beside it: Toasts.Timers
--     is the provider with the browser's timers.
--   Routes: web/src/App.tsx with web/src/components/Layout.tsx, and the same of the
--     administration: Routes.Tables has the tables and the items of the navigation,
--     Routes.Access who sees which page, Routes.Links and Routes.Results where links lead. The router
--     is an interface, with laws on paths and tables of lower-case words.
--   Admin: pages of admin/src/pages: Admin.IpWhitelist is IPWhitelist.tsx, Admin.Roles Roles.tsx,
--     Admin.AuditLogs AuditLogs.tsx, Admin.Flags FeatureFlags.tsx, Admin.Announcements
--     Announcements.tsx, Admin.Discounts DiscountCodes.tsx, Admin.Abuse Blacklist.tsx with
--     AbuseReports.tsx, Admin.Retention DataRetention.tsx, Admin.Pricing PricingConfig.tsx,
--     Admin.Invoices Invoices.tsx (Admin.Invoices.Race with calls that overlap), Admin.Customers
--     CustomerCRM.tsx with CustomerDetail.tsx, Admin.Certificates Certificates.tsx, Admin.Reports
--     AuditReports.tsx, Admin.Directory Users.tsx with Organizations.tsx, RelayNodes.tsx and the
--     uptime of RelayNodeDetail.tsx, Admin.Dashboards the calls of the three dashboards.
--   ApiDocs: web/src/pages/ApiDocs.tsx: ApiDocs.Defs has the types of the document and its groups,
--     ApiDocs.Views what is shown of a schema, ApiDocs.Samples the samples of code, and
--     ApiDocs.Reference the built-in document.
--   Pages: web/src/pages/Webhooks.tsx, web/src/pages/Domains.tsx, web/src/pages/Networks.tsx
--     and web/src/pages/Settings.tsx: the dialogs and their calls; Pages.Ago is the age of an
--     event, of web/src/pages/Notifications.tsx and Settings.tsx. Pages.TunnelDetail is
--     web/src/pages/TunnelDetail.tsx, its dialog (Editing) and its chart (Traffic), Pages.Notices
--     web/src/pages/Notifications.tsx, Pages.NetworkDetail, Pages.Billing, Pages.Downloads and
--     Pages.Dashboard the pages of these names, and Pages.Activity the activity tab of Settings.tsx.
--
-- How the parts interact: the stores and the pages call the API client, the API client
-- reads and writes the tokens in the localStorage, and the stores read them through Token.
-- A server is a function from the requests sent before and the request to a reply, so it
-- answers each request as it likes. Names follow the source in snake_case
-- (ApiClient._doRefresh is do_refresh, OmniTunWS.scheduleReconnect is schedule_reconnect).
--
-- Bounds and fuel: no definition runs on fuel. A call makes its one repetition without a
-- further refresh, as the source does, so it ends by its own shape. The reconnect delays
-- are the source's, in milliseconds. Counters, lengths and clock times are natural numbers,
-- unbounded; JSON numbers and the selected row of the palette are integers.
--
-- Not modelled: React and react-query, rendering, the browser's functions (parameters),
-- failures of localStorage itself, the Go services (the server is arbitrary), floating-point
-- arithmetic (sizes in bytes, bars of the usage), and the pages that only render what a call
-- returns (UserDetail.tsx and OrganizationDetail.tsx). An action of a store runs to its end before the
-- next one starts.
pub mod Prelude
pub mod Js
pub mod Token
pub mod Api
pub mod Store
pub mod Socket
pub mod Notifications
pub mod Admin
pub mod ApiDocs
pub mod Copying
pub mod Dialogs
pub mod Forms
pub mod Inspect
pub mod Onboarding
pub mod Pages
pub mod Palette
pub mod Queries
pub mod Routes
pub mod Theme
pub mod Toasts
pub mod TunnelsPage
pub mod Types
