-- ===== src/Lib.antt =====
-- Synkro: the authentication of its API gateway, the notification service, the sessions of the
-- authentication application and the dashboard, and the dashboard's HTTP service and back office.
--
-- The program's parts. `api-gateway-auth` (NestJS) keeps users and roles in a database, signs tokens
-- and guards its routes. `notification-service` (Elysia) keeps notifications in memory.
-- `frontend-auth` (Vue) signs users in at the gateway, keeps the session in `localStorage` and posts
-- it to the window that embeds it. `frontend-dashboard` (Next) takes those messages for its own
-- session; its HTTP service sends the session's token with every request and ends the session where a
-- request is rejected, its hooks and back-office modules make their requests through that service, and
-- the forms and tables of the back office edit what the requests answer. The parts meet in the tokens
-- (signed by the gateway, kept by the applications, validated at the gateway) and in the messages.
--
-- The files, by the source that they model (a method is the function of the same name in snake case):
-- - Base: what the other modules share; texts and tests as in the source (`truthy`, `given`, `??`),
--   lists, and `Action`, a call that may throw and changes the database.
-- - Gateway.Entities, Repository, Users, Roles: api-gateway-auth/src/modules/user (entities, dto,
--   user.service.ts, role.service.ts). The repositories of TypeORM are the parameters of
--   `Gateway.Repository`, with the laws that the theorems rely on; `Gateway.Memory` has lists that
--   meet the laws, for the tests.
-- - Gateway.Tokens, Auth: api-gateway-auth/src/modules/auth/auth.service.ts. The state is the set of
--   invalidated tokens, a list; JWT and bcrypt are parameters. `Gateway.Auth.Logout` has the runs of
--   the service: log-outs, the hourly clean-up, time and writes to the database in any order.
-- - Gateway.Guards, Controllers, AuthRoutes: api-gateway-auth/src/modules/user/guards, decorators and
--   controllers, src/modules/auth/strategies/jwt.strategy.ts, src/modules/auth/auth.controller.ts and
--   the guard that src/app.module.ts registers for all routes.
-- - Gateway.Monitoring: api-gateway-auth/src/modules/monitoring/monitoring.service.ts.
-- - Gateway.Routing: api-gateway-auth/src/modules/routing and the interceptor of src/modules/metrics.
-- - Notification: notification-service/src/services/notificationService.ts, types and main.ts.
-- - AuthApp.Store, Router, Messaging: frontend-auth/src/stores/auth.store.ts, router/index.ts and
--   utils/messaging.ts. An `async` function is cut at its `await`; `AuthApp.Store.Runs` has the calls
--   and the replies in any order.
-- - Dashboard.Session: frontend-dashboard/src/services/auth.service.ts and what it calls of
--   utils/helpers.ts; `Dashboard.Session.Validation` has its runs.
-- - Http, Http.Calls: frontend-dashboard/src/services/api.service.ts. Http.Hooks, Http.Hooks.Routes:
--   the hooks useOrders, usePayments, useShipping, useInventory and useCustomers of src/hooks.
--   Http.Predictions: src/services/ai-prediction.service.ts.
-- - Http.BaseService: src/services/base.service.ts. Charts, Charts.Volume: src/utils/chartHelpers.ts.
-- - Analytics: src/hooks/useAnalytics.ts of the dashboard, its 25 methods by subject; Analytics.Service is
--   src/services/analytics.service.ts, src/controllers/analytics.controller.ts, the endpoints of
--   src/utils/constants.ts and `formatChartData` of src/utils/helpers.ts. `Analytics.Values` has the JSON
--   values that this code handles; the arithmetic of doubles is a parameter of it.
-- - Widgets.Select, Widgets.Table: frontend-dashboard/src/components/ui/MultiSelectAutocomplete.tsx and
--   src/backoffice/components/organisms/DataTable.tsx. An array's `sort` is `Base.Sorting.sort`.
-- - Backoffice: frontend-dashboard/src/backoffice. Builder is core/organisms/BackofficeBuilderImpl.ts,
--   Builder.Plain, Director and Store are the files of core/builders, Orders and Stock parts of
--   core/builders/BackofficeDirector.tsx, and Forms is hooks/useFormActions.ts.
-- Modules called Laws, Grouping, Rows, Described, Order, Selection, Agreement, Settling, Urls,
-- Rejected, Sending, Submit, Effects, Relations, Confined, Sync, Cleanup, Login, Passwords,
-- Access, Format, Counter, Replies and Messages, and those below Analytics called Reading,
-- Completion, Filled, Unchanged, Soundness, Answers, Fallbacks, Calls, Formatting and Groups, hold
-- theorems; Tests hold the code at concrete inputs.
--
-- Numbers and bounds. Times are natural numbers, of seconds at the gateway and of milliseconds in the
-- dashboard; the code adds and compares them far below the bounds of a double. The one fuel is that of
-- `AuthApp.Router.navigate`, which bounds the redirections of a navigation; two are enough. The
-- quantities and thresholds of the stock and the numbers of table rows are natural numbers; the
-- quantities of selected options are of any type of numbers.
--
-- Not modelled: logging, metrics but for the counters of notifications and requests, the rate
-- limits and the transport of messages, the validation of request bodies, what Vue and React components
-- render, the drawing of charts, and the services in Go, Rust and Python. Of the answers of the
-- analytics, fields that JavaScript would set on an array are left out, and names of fields that are no
-- texts, where a chart is made from them.
pub mod Analytics
pub mod AuthApp
pub mod Backoffice
pub mod Base
pub mod Charts
pub mod Dashboard
pub mod Gateway
pub mod Http
pub mod Notification
pub mod Widgets
